-- ===== src/Gtests/Broadcast/Air.antt =====
-- The server of gtests/test_bc.cpp and any number of clients at the same time, over a broadcast
-- network without losses.
use marko_cpp.Prelude.{
  true, ℕ, ◌==◌, if◌then◌else◌, Bytes, List, [], ◌∷◌, ◌++◌, length, ℤ, pos, ◌≡◌, ◌≢◌,
}
use marko_cpp.Outcome.{Outcome}
use marko_cpp.Sockaddr.{InetAddr}
use marko_cpp.Os.{Os, inet_at}
use marko_cpp.Machine.{Sock}
use marko_cpp.Loop.Queue.{at_world}
use marko_cpp.Message.{Subscription}
use marko_cpp.Gtests.{Harness}
use marko_cpp.Gtests.Broadcast.{cast_one, check_one}

-- The client `c` has the descriptor `fds c`. A datagram that the server sends to `to` is put behind
-- those that wait at each client; a receive call of a client takes its first one, whole; a test that
-- holds is not counted as a failure.
pub record Air (os : Os) (h : Harness os) (from : ℤ) (to : InetAddr) (fds : ℕ → ℤ) : Type 0 where
  pub waiting : ℕ → os.World → List Bytes
  pub failures : os.World → ℕ
  pub on_send :
      (msg : Bytes) (w : os.World)
      → let v = (os.send_to from msg 0 (inet_at to) w).1 in
        ((c : ℕ) → waiting c v ≡ waiting c w ++ msg ∷ []) × (failures v ≡ failures w)
  pub on_nap :
      (usec : ℤ) (w : os.World)
      → ((c : ℕ) → waiting c (h.nap usec w) ≡ waiting c w) × (failures (h.nap usec w) ≡ failures w)
  pub on_receive :
      (c : ℕ) (msg : Bytes) (rest : List Bytes) (w : os.World)
      → waiting c w ≡ msg ∷ rest
      → length msg ≡ 2
      → let r = os.recvfrom_in (fds c) 2 0 w in
        (r.0.num ≡ pos (length msg))
        × (r.0.written ≡ msg)
        × (waiting c r.1 ≡ rest)
        × ((b : ℕ) → b ≢ c → waiting b r.1 ≡ waiting b w)
        × (failures r.1 ≡ failures w)
  pub on_expect :
      (w : os.World)
      → ((c : ℕ) → waiting c (h.expect true w) ≡ waiting c w)
        × (failures (h.expect true w) ≡ failures w)

-- What client `c` has left is now `rest`.
abbrev pub set_left : ℕ → List Subscription → (ℕ → List Subscription) → ℕ → List Subscription
set_left c rest left b = if b == c then rest else left b

module _ (os : Os) (h : Harness os) (garbage : Bytes) (from : ℤ) (to : InetAddr) (fds : ℕ → ℤ) where
  abbrev pub server_round : Subscription → os.World → Outcome (Unit {0}) × Sock os.World
  server_round d w = cast_one os h to d (at_world from w)

  abbrev pub client_round : ℕ → Subscription → os.World → Outcome (Unit {0}) × Sock os.World
  client_round c d w = check_one os h garbage d (at_world (fds c) w)

  -- The worlds that an interleaving of the rounds leads to, with the data that the server has still
  -- to send, and that each client has still to compare. A client's round goes on where something
  -- waits for it.
  pub data Reach (waiting : ℕ → os.World → List Bytes) (all : List Subscription) (w0 : os.World)
      : List Subscription → (ℕ → List Subscription) → os.World → Type 0 where
    start : Reach waiting all w0 all (λ c. all) w0
    casts :
        {d : Subscription} {ds : List Subscription} {left : ℕ → List Subscription} {w : os.World}
        → Reach waiting all w0 (d ∷ ds) left w
        → Reach waiting all w0 ds left (server_round d w).1.world
    checks :
        {ds : List Subscription} {left : ℕ → List Subscription} {w : os.World} (c : ℕ)
        (d : Subscription) (rest : List Subscription)
        → left c ≡ d ∷ rest
        → waiting c w ≢ []
        → Reach waiting all w0 ds left w
        → Reach waiting all w0 ds (set_left c rest left) (client_round c d w).1.world
