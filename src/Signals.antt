-- ===== src/Signals.antt =====
-- src/include/marko/signals.hpp: the class SignalFunc. The signal table of the process is the
-- argument `table`: which handler each signal has.
use marko_cpp.Prelude.{ℕ, Bool, true, ◌||◌, ◌==◌, if◌then◌else◌, ℤ, pos, ◌≡◌, arith}
use marko_cpp.Outcome.{Outcome, returned, threw, invalid_argument}

abbrev pub sigint : ℕ
sigint = 2

abbrev pub sigkill : ℕ
sigkill = 9

abbrev pub sigstop : ℕ
sigstop = 19

pub record SignalFunc : Type 0 where
  pub enabled : Bool

-- What the process does on each signal.
abbrev pub Table : Type 0 → Type 0
Table H = ℕ → H

module _ {H : Type 0} where
  -- sigaction with an empty mask and no flags
  unfoldable pub sigaction : ℕ → H → Table H → Table H
  sigaction signum f table n = if n == signum then f else table n

  unfoldable pub enable : SignalFunc → H → ℕ → Table H → Outcome ℤ × SignalFunc × Table H
  unfolding sigaction
  enable self f signum table =
      if self.enabled
      then (returned (pos 0), self, table)
      else if signum == sigkill || signum == sigstop
      then (threw invalid_argument, self, table)
      else (returned (pos 0), record self { enabled = true }, sigaction signum f table)

  -- An object takes one signal: after an accepted `enable` every later one reports success and
  -- installs nothing, for whatever signal and handler.
  pub enable_once :
      (self : SignalFunc) (f g : H) (signum other : ℕ) (table : Table H)
      → (enable self f signum table).0 ≡ returned (pos 0)
      → let after = enable self f signum table in
        enable after.1 g other after.2 ≡ (returned (pos 0), after.1, after.2)
  unfolding enable
  enable_once self f g signum other table h = ground arith
