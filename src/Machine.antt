-- ===== src/Machine.antt =====
-- A socket object together with the world, and the monad of its methods: a method may throw, and
-- what it did to the object and to the world stays done.
use marko_cpp.Prelude.{ℤ, ◌≡◌, refl}
use marko_cpp.Outcome.{Outcome, returned, threw, undefined, Exn}

-- The object is its descriptor, `socket_fd`.
pub record Sock (W : Type 0) : Type 0 where
  pub fd : ℤ
  pub world : W

abbrev pub M : Type 0 → Type 0 → Type 0
M W A = Sock W → Outcome A × Sock W

abbrev pub continue : {W A B : Type 0} → Outcome A × Sock W → (A → M W B) → Outcome B × Sock W
continue (returned a, s) f = f a s
continue (threw e, s) f = (threw e, s)
continue (undefined, s) f = (undefined, s)

infixl 5 ◌>>=◌ ◌>>◌
abbrev pub ◌>>=◌ : {W A B : Type 0} → M W A → (A → M W B) → M W B
◌>>=◌ m f s = continue (m s) f

abbrev pub ◌>>◌ : {W B : Type 0} → M W (Unit {0}) → M W B → M W B
m >> k = m >>= λ _. k

abbrev pub ret : {W A : Type 0} → A → M W A
ret a s = (returned a, s)

abbrev pub throw : {W A : Type 0} → Exn → M W A
throw e s = (threw e, s)

abbrev pub bad : {W A : Type 0} → M W A
bad s = (undefined, s)

-- A computation that touches neither the object nor the world.
abbrev pub lift : {W A : Type 0} → Outcome A → M W A
lift o s = (o, s)

-- A system call on the object's descriptor.
abbrev pub sys : {W A : Type 0} → (ℤ → W → A × W) → M W A
sys g s = (returned (g s.fd s.world).0, record s { world = (g s.fd s.world).1 })

-- A call that only changes the world.
abbrev pub effect : {W : Type 0} → (W → W) → M W (Unit {0})
effect g s = (returned tt, record s { world = g s.world })

abbrev pub inspect : {W A : Type 0} → (W → A) → M W A
inspect g s = (returned (g s.world), s)

-- Running three steps does not depend on how they are grouped.
pub continue-continue :
    {W A B C : Type 0} (r : Outcome A × Sock W) (f : A → M W B) (g : B → M W C)
    → continue (continue r f) g ≡ continue r (λ a s. continue (f a s) g)
continue-continue (returned a, s) f g = refl
continue-continue (threw e, s) f g = refl
continue-continue (undefined, s) f g = refl

pub continue-ret : {W : Type 0} (r : Outcome (Unit {0}) × Sock W) → continue r (λ _. ret tt) ≡ r
continue-ret (returned a, s) = refl
continue-ret (threw e, s) = refl
continue-ret (undefined, s) = refl
