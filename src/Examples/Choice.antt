-- ===== src/Examples/Choice.antt =====
-- The `main` of examples/ps.cpp, rr.cpp and simple.cpp: it picks one of two functions by the one
-- argument of the command line. A run gives the exit status of the process.
use marko_cpp.Prelude.{ℕ, Bytes, List, [], ◌∷◌, if◌then◌else◌}
use marko_cpp.Prelude.{eq_bytes}
use marko_cpp.Outcome.{Outcome, returned, ◌>>=◌}
use marko_cpp.Os.{Os}
use marko_cpp.Host.{get_host_ip}
use marko_cpp.Machine.{Sock}

abbrev pub Run : Os → Type 0
Run os = os.World → Outcome ℕ × os.World

-- What `main` returns where the function ended normally with a value.
abbrev pub ends : {W A : Type 0} → (A → ℕ) → Outcome A × Sock W → Outcome ℕ × W
ends status (r, s) = (r >>= (λ a. returned (status a)), s.world)

abbrev pub run : {W : Type 0} → Outcome (Unit {0}) × Sock W → Outcome ℕ × W
run = ends (λ done. 0)

-- `HOST` is computed before `main` starts.
unfoldable pub with_host : (os : Os) → (Bytes → Run os) → os.World → Outcome (Outcome ℕ × os.World)
with_host os main w = get_host_ip os w >>= (λ (host, w1). returned (main host w1))

-- `args` is `argv`, with the name of the program in front.
unfoldable pub pick : (os : Os) → Bytes → Bytes → Run os → Bytes → Run os → List Bytes → Run os
pick os usage a run_a b run_b (program ∷ arg ∷ []) w =
    if eq_bytes arg a
    then run_a w
    else if eq_bytes arg b
    then run_b w
    else (returned 0, os.print_line usage w)
pick os usage a run_a b run_b args w = (returned 1, os.print_line usage w)
