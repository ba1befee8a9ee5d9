-- ===== src/Prelude/Decimal.antt =====
-- Numbers in text: std::to_string of a natural number and std::stoi.
use marko_cpp.Prelude.Tests.{leb, ◌==◌, if◌then◌else◌}
use marko_cpp.Prelude.Lists.{Bytes, codes, All}
use Prim.Native.Nat.{ℕ, zero, suc, ◌+◌, ◌-◌, ◌*◌, ◌/◌, ◌%◌, ◌≤◌, ◌<◌}
use mathlib.Core.Path.{◌≡◌, refl, ap, ◌∙◌}
use mathlib.Core.Logic.{◌≢◌}
use mathlib.Core.Bool.{Bool, false, ◌&&◌}
use mathlib.Core.List.{[], ◌∷◌, ◌++◌}
use mathlib.Core.Option.{Option, none, some}
use native.Mathlib.Omega.{arith}

abbrev pub is_digit : ℕ → Bool
is_digit c = leb b'0' c && leb c b'9'

abbrev pub IsDigit : ℕ → Type 0
IsDigit c = (b'0' ≤ c) × (c ≤ b'9')

-- The digits of `n` in front of `out`; each round divides by ten, so `n` rounds are enough.
digits : ℕ → ℕ → Bytes → Bytes
digits zero n out = out
digits (suc f) n out =
    let rest = digits f (n / 10) ((b'0' + n % 10) ∷ out) in
    if n / 10 == 0 then (b'0' + n % 10) ∷ out else rest

unfoldable pub to_string : ℕ → Bytes
unfolding digits
to_string n = digits (suc n) n []

-- The number that the leading digits of a text spell behind `n`; `none` when there is no digit.
unfoldable pub leading : ℕ → Bytes → ℕ
leading n [] = n
leading n (c ∷ s) = if is_digit c then leading (n * 10 + (c - b'0')) s else n

unfoldable pub strtol : Bytes → Option ℕ
unfolding leading
strtol [] = none
strtol (c ∷ s) = if is_digit c then some (leading (c - b'0') s) else none

-- The value of a text of digits.
abbrev pub value : ℕ → Bytes → ℕ
value n [] = n
value n (c ∷ s) = value (n * 10 + (c - b'0')) s

leading_whole : (s : Bytes) (n : ℕ) → All IsDigit s → leading n s ≡ value n s
unfolding leading
leading_whole [] n h = refl
leading_whole (c ∷ s) n h = ground (arith, leading_whole s (n * 10 + (c - b'0')) h.1)

-- `strtol` reads a text of digits whole.
pub strtol_digits : (s : Bytes) → s ≢ [] → All IsDigit s → strtol s ≡ some (value 0 s)
unfolding strtol
strtol_digits [] ne h = absurd (ne refl)
strtol_digits (c ∷ s) ne h = ground (arith, leading_whole s (c - b'0') h.1)

-- A byte that is no digit ends the number.
pub leading_stop :
    (s rest : Bytes) (n c : ℕ)
    → All IsDigit s
    → is_digit c ≡ false
    → leading n (s ++ c ∷ rest) ≡ value n s
unfolding leading
leading_stop [] rest n c h stop = rw stop
leading_stop (d ∷ s) rest n c h stop =
    ground (arith, leading_stop s rest (n * 10 + (d - b'0')) c h.1 stop)

IsDigit-digits : (f n : ℕ) (out : Bytes) → All IsDigit out → All IsDigit (digits f n out)
unfolding digits
IsDigit-digits zero n out h = h
IsDigit-digits (suc f) n out h = ground (arith, IsDigit-digits f (n / 10) ((b'0' + n % 10) ∷ out))

pub IsDigit-to_string : (n : ℕ) → All IsDigit (to_string n)
unfolding to_string
IsDigit-to_string n = IsDigit-digits (suc n) n [] tt

value-digits : (f n : ℕ) (out : Bytes) → n < f → value 0 (digits f n out) ≡ value n out
unfolding digits
value-digits zero n out h = absurd (omega arith)
value-digits (suc f) n out h = ground (arith, value-digits f (n / 10) ((b'0' + n % 10) ∷ out))

pub value-to_string : (n : ℕ) → value 0 (to_string n) ≡ n
unfolding to_string
value-to_string n = value-digits (suc n) n [] (omega arith)

digits-ne-nil : (f n : ℕ) (out : Bytes) → out ≢ [] → digits f n out ≢ []
unfolding digits
digits-ne-nil zero n out h = h
digits-ne-nil (suc f) n out h =
    ground (arith, digits-ne-nil f (n / 10) ((b'0' + n % 10) ∷ out) (λ e. cc))

pub to_string-ne-nil : (n : ℕ) → to_string n ≢ []
unfolding to_string digits
to_string-ne-nil n = ground (arith, digits-ne-nil n (n / 10) ((b'0' + n % 10) ∷ []) (λ e. cc))

-- Reading a printed number gives it back.
pub strtol-to_string : (n : ℕ) → strtol (to_string n) ≡ some n
strtol-to_string n =
    strtol_digits (to_string n) (to_string-ne-nil n) (IsDigit-to_string n)
    ∙ ap some (value-to_string n)

t1 : to_string 65535 ≡ codes "65535"
unfolding to_string
t1 = refl

t0 : to_string 0 ≡ codes "0"
unfolding to_string
t0 = refl

t2 : strtol (codes "80,3") ≡ some 80
unfolding strtol
t2 = refl
