-- ===== src/Loop.antt =====
-- `while (event.is_set()) once();`, the loop of Subscriber and Reply (src/include/marko/pub_sub.hpp,
-- request_reply.hpp). The event's flag is read in the world, where other threads set and clear it.
pub mod Queue
use marko_cpp.Prelude.{
  ap, subst, inl, inr, Bool-cases, ℕ, zero, suc, ◌<◌, Bool, true, false, if◌then◌else◌, ◌≡◌, refl,
  arith,
}
use marko_cpp.Outcome.{Outcome, returned, threw, undefined}
use marko_cpp.Machine.{Sock, M, continue}

module _ {W : Type 0} (is_set : W → Bool) (once : M W (Unit {0})) where
  -- `false` means that the fuel ran out: the loop was still going.
  unfoldable pub loop : ℕ → M W Bool
  loop zero s = (returned false, s)
  loop (suc fuel) s =
      let rest = continue (once s) (λ _. loop fuel) in
      if is_set s.world then rest else (returned true, s)

  -- `n` rounds lead from one state to the other, each started with the flag set and ended normally.
  pub data Rounds : Sock W → ℕ → Sock W → Type 0 where
    none_yet : (s : Sock W) → Rounds s zero s
    round :
        {s : Sock W} {n : ℕ} (s1 : Sock W) {t : Sock W}
        → is_set s.world ≡ true
        → once s ≡ (returned tt, s1)
        → Rounds s1 n t
        → Rounds s (suc n) t

  -- With more fuel than rounds, the loop ends by its test in the state that the rounds lead to.
  pub loop-Rounds :
      (fuel : ℕ) {s : Sock W} {n : ℕ} {t : Sock W}
      → Rounds s n t
      → is_set t.world ≡ false
      → n < fuel
      → loop fuel s ≡ (returned true, t)
  unfolding loop
  loop-Rounds zero r clear h = absurd (omega arith)
  loop-Rounds (suc fuel) (none_yet s) clear h = rw clear
  loop-Rounds (suc fuel) (round s1 e eo r) clear h =
      rw (e, eo) (loop-Rounds fuel r clear (omega arith))

  abbrev pub Ended : ℕ → Sock W → Sock W → Type 0
  Ended fuel s t = (n : ℕ) × (n < fuel) × Rounds s n t × (is_set t.world ≡ false)

  -- A loop that ended made fewer rounds than its fuel and found the flag clear.
  pub loop-Ended : (fuel : ℕ) (s t : Sock W) → loop fuel s ≡ (returned true, t) → Ended fuel s t
  unfolding loop
  loop-Ended zero s t h = cc
  loop-Ended (suc fuel) s t h = elim (Bool-cases (is_set s.world)) [
    | inr clear ↦
        subst (Ended (suc fuel) s) (ap (λ r. r.1) (rw clear at h))
          (0, omega arith, none_yet s, clear)
    | inl set ↦ go set (once s) refl (rw set at h) (loop-Ended fuel)
  ]
    where
      go :
          is_set s.world ≡ true
          → (r : Outcome (Unit {0}) × Sock W) → once s ≡ r
          → continue r (λ _. loop fuel) ≡ (returned true, t)
          → ((s1 t1 : Sock W) → loop fuel s1 ≡ (returned true, t1) → Ended fuel s1 t1)
          → Ended (suc fuel) s t
      go set (returned u, s1) e k ih =
          let (n, below, rounds, clear) = ih s1 t k in
          (suc n, omega arith, round s1 set e rounds, clear)
      go set (threw x, s1) e k ih = cc
      go set (undefined, s1) e k ih = cc
