-- ===== src/PubSub/Audience.antt =====
-- What a Publisher (src/include/marko/pub_sub.hpp) is for its receivers: the addresses that were
-- registered, with their numbers but without their order.
pub mod Refines
use mathlib.Core.Quot
use mathlib.Core.Quot.{Quot, Quot-set}
use mathlib.Core.List.{Perm, Permᴰ}
use mathlib.Core.List.Perm
use mathlib.Core.Logic.{∥∥₁_elim}
use native.Mathlib.Nat.{ℕ_set}
use marko_cpp.Prelude.{
  true, false, append_assoc, ℕ, suc, Bool, if◌then◌else◌, Bytes, List, [], ◌∷◌, ◌++◌, replicate,
  ◌≡◌, refl, sym, ◌∙◌, arith, ap,
}

-- How many of the addresses reach a receiver: `gets a r` tells whether a datagram for `a` comes to
-- `r`, as one for the address of `r` does, or a broadcast.
abbrev pub copies : {A : Type 0} → (A → ℕ → Bool) → ℕ → List A → ℕ
copies gets r [] = 0
copies gets r (a ∷ addrs) = let n = copies gets r addrs in if gets a r then suc n else n

-- The copies come behind what is there.
pub put_behind :
    (b : Bool) (box : List Bytes) (msg : Bytes) (n : ℕ)
    → (if b then box ++ msg ∷ [] else box) ++ replicate n msg
      ≡ box ++ replicate (if b then suc n else n) msg
put_behind true box msg n = append_assoc box (msg ∷ []) (replicate n msg)
put_behind false box msg n = refl

abbrev pub Audience : Type 0 → Type 0
Audience A = Quot (Perm {A = A})

copies-Permᴰ :
    {A : Type 0} (gets : A → ℕ → Bool) (r : ℕ) {xs ys : List A}
    → Permᴰ xs ys
    → copies gets r xs ≡ copies gets r ys
copies-Permᴰ gets r Permᴰ.nil = refl
copies-Permᴰ gets r (Permᴰ.cons e p) = rw (e, copies-Permᴰ gets r p) refl
copies-Permᴰ gets r (Permᴰ.swap e f) = rw (e, f) (ground arith)
copies-Permᴰ gets r (Permᴰ.trans p q) = copies-Permᴰ gets r p ∙ copies-Permᴰ gets r q

pub copies-Perm :
    {A : Type 0} (gets : A → ℕ → Bool) (r : ℕ) (xs ys : List A)
    → Perm xs ys
    → copies gets r xs ≡ copies gets r ys
copies-Perm gets r xs ys p = ∥∥₁_elim p (ℕ_set _ _) (copies-Permᴰ gets r)

unfoldable pub audience_copies : {A : Type 0} → (A → ℕ → Bool) → ℕ → Audience A → ℕ
audience_copies gets r = Quot.lift ℕ_set (copies gets r) (copies-Perm gets r)

unfoldable pub join : {A : Type 0} → A → Audience A → Audience A
join a = Quot.lift Quot-set (λ xs. Quot.mk (a ∷ xs)) (λ xs ys p. Quot.sound (Perm.cons a p))

-- An audience, and what waits at each receiver.
pub record View (A : Type 0) : Type 0 where
  pub audience : Audience A
  pub boxes : ℕ → List Bytes

-- What a program does with a publisher.
pub data Command (A : Type 0) : Type 0 where
  registers : A → Command A
  publishes : Bytes → Command A

-- A message comes to a receiver once for each address of the audience that reaches it.
unfoldable pub act : {A : Type 0} → (A → ℕ → Bool) → Command A → View A → View A
unfolding join audience_copies
act gets (registers a) v = record v { audience = join a v.audience }
act gets (publishes msg) v = record v {
  boxes = λ r. v.boxes r ++ replicate (audience_copies gets r v.audience) msg;
}

unfoldable pub act_all : {A : Type 0} → (A → ℕ → Bool) → List (Command A) → View A → View A
unfolding act
act_all gets [] v = v
act_all gets (c ∷ cs) v = act_all gets cs (act gets c v)

-- Whoever joins first, it is the same audience.
pub join_comm : {A : Type 0} (a b : A) (x : Audience A) → join a (join b x) ≡ join b (join a x)
unfolding join
join_comm a b = Quot.ind (λ x. Quot-set _ _) (λ xs. Quot.sound ∣ Permᴰ.swap refl refl ∣₁)
