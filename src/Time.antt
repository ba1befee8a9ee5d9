-- ===== src/Time.antt =====
-- src/include/marko/time.hpp: the conversion of a timeout to a `timeval`, and the sleeps.
use marko_cpp.Prelude.{
  zero, suc, ◌-◌, ℕ, ◌+◌, ◌*◌, ◌/◌, ◌%◌, ◌≡◌, ◌↔◌, ℤ, pos, negsuc, neg, div_trunc, mod_trunc, refl,
  arith,
}

pub record Timeval : Type 0 where
  pub tv_sec : ℤ
  pub tv_usec : ℤ

-- `timeout_msec - tv_sec*1000`, where `tv_sec` is `timeout_msec / 1000`.
abbrev pub less_seconds : ℤ → ℤ
less_seconds (pos n) = pos (n - n / 1000 * 1000)
less_seconds (negsuc n) = neg (suc n - suc n / 1000 * 1000)

unfoldable pub get_time : ℤ → Timeval
get_time timeout_msec = record {
  tv_sec = div_trunc timeout_msec 1000;
  tv_usec = mod_trunc (less_seconds timeout_msec) 1000;
}

-- The time that a `timeval` of natural numbers stands for, in microseconds.
abbrev pub micros : Timeval → ℤ
micros t = elim t.tv_sec [
  | pos s ↦ elim t.tv_usec [ pos u ↦ pos (s * 1000000 + u) | negsuc u ↦ negsuc u ]
  | negsuc s ↦ negsuc s
]

-- The seconds are whole and the rest is below a thousand: the two parts are the timeout's whole
-- seconds and its remaining milliseconds, whatever the sign.
pub get_time_parts :
    (n : ℕ)
    → (get_time (pos n) ≡ record { tv_sec = pos (n / 1000); tv_usec = pos (n % 1000) })
      × (get_time (neg n) ≡ record { tv_sec = neg (n / 1000); tv_usec = neg (n % 1000) })
unfolding get_time
get_time_parts zero = (refl, refl)
get_time_parts (suc n) = (ground arith, ground arith)

-- The remainder is stored as microseconds: for a timeout of zero or more the `timeval` lasts as
-- long as the timeout exactly when the timeout is a number of whole seconds.
pub get_time_exact : (n : ℕ) → (micros (get_time (pos n)) ≡ pos (n * 1000)) ↔ (n % 1000 ≡ 0)
unfolding get_time
get_time_exact n = (λ e. ground arith, λ e. ground arith)

-- `n * k` of a signed number, for the units of std::chrono.
abbrev pub scale : ℕ → ℤ → ℤ
scale k (pos n) = pos (n * k)
scale k (negsuc n) = neg (suc n * k)

-- The microseconds that the three sleeps of namespace marko hand to `sleep_for`, which returns at once
-- from a negative number.
unfoldable pub msleep : ℤ → ℤ
msleep msec = scale 1000 msec

unfoldable pub usleep : ℤ → ℤ
usleep usec = usec

unfoldable pub sleep : ℤ → ℤ
sleep sec = scale 1000000 sec
