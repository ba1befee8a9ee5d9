-- ===== src/Ascii/Rejoin.antt =====
-- A text that is unpacked and packed again (src/include/marko/ascii.hpp).
use marko_cpp.Prelude.{
  Bool-cases, ℕ, Bytes, List, [], ◌∷◌, ◌++◌, ◌==◌, if◌then◌else◌, ◌≡◌, ◌≢◌, refl, ap, inl, inr,
  arith,
}
use marko_cpp.Outcome.{returned}
use marko_cpp.Ascii.{false, true, Ascii, unpack, pack}
use marko_cpp.Ascii.RoundTrip.{behind_seps, append_rest_lem}
use marko_cpp.Ascii.Split.{
  prepend, split_on, less_last_empty, Fields, split_on-Fields, less_last_empty-cons,
  unpack-split_on,
}

-- The text without a separator at its end.
unfoldable pub chomp : ℕ → Bytes → Bytes
chomp sep [] = []
chomp sep (c ∷ []) = if c == sep then [] else c ∷ []
chomp sep (c ∷ d ∷ s) = c ∷ chomp sep (d ∷ s)

abbrev joined : ℕ → List Bytes → Bytes
joined sep [] = []
joined sep (f ∷ fs) = f ++ behind_seps sep fs

joined-cons : (sep : ℕ) (fs : List Bytes) → Fields fs → joined sep ([] ∷ fs) ≡ sep ∷ joined sep fs
unfolding behind_seps
joined-cons sep fs (g, gs, e) = rw e refl

joined-prepend :
    (sep c : ℕ) (fs : List Bytes) → Fields fs → joined sep (prepend (c ∷ []) fs) ≡ c ∷ joined sep fs
joined-prepend sep c fs (g, gs, e) = rw e refl

less_last_empty-prepend :
    (c : ℕ) (fs : List Bytes)
    → Fields (less_last_empty fs)
    → less_last_empty (prepend (c ∷ []) fs) ≡ prepend (c ∷ []) (less_last_empty fs)
unfolding less_last_empty
less_last_empty-prepend c [] (g, gs, e) = cc
less_last_empty-prepend c ([] ∷ []) (g, gs, e) = cc
less_last_empty-prepend c ((d ∷ f) ∷ []) h = refl
less_last_empty-prepend c ([] ∷ f ∷ fs) h = refl
less_last_empty-prepend c ((d ∷ g) ∷ f ∷ fs) h = refl

prepend-Fields : (cur : Bytes) (fs : List Bytes) → Fields (prepend cur fs)
prepend-Fields cur [] = (cur, [], refl)
prepend-Fields cur (f ∷ fs) = (cur ++ f, fs, refl)

split_on_sep :
    (sep c : ℕ) (s : Bytes) → c == sep ≡ true → split_on sep (c ∷ s) ≡ [] ∷ split_on sep s
unfolding split_on
split_on_sep sep c s e = rw e

split_on_other :
    (sep c : ℕ) (s : Bytes)
    → c == sep ≡ false
    → split_on sep (c ∷ s) ≡ prepend (c ∷ []) (split_on sep s)
unfolding split_on
split_on_other sep c s e = rw e

-- The fields of a text that stay when its first character is put in front.
less_sep :
    (sep c : ℕ) (s : Bytes)
    → c == sep ≡ true
    → less_last_empty (split_on sep (c ∷ s)) ≡ [] ∷ less_last_empty (split_on sep s)
less_sep sep c s e = rw (split_on_sep sep c s e) (less_last_empty-cons [] _ (split_on-Fields sep s))

less_other :
    (sep c : ℕ) (s : Bytes)
    → c == sep ≡ false
    → Fields (less_last_empty (split_on sep s))
    → less_last_empty (split_on sep (c ∷ s)) ≡ prepend (c ∷ []) (less_last_empty (split_on sep s))
less_other sep c s e stay = rw (split_on_other sep c s e) (less_last_empty-prepend c _ stay)

less_one : (sep c : ℕ) → c == sep ≡ false → less_last_empty (split_on sep (c ∷ [])) ≡ (c ∷ []) ∷ []
less_one sep c e = rw (split_on_other sep c [] e) (unfold split_on less_last_empty in refl)

-- A text of one character or more has a field that stays.
less_last_empty-Fields : (sep c : ℕ) (s : Bytes) → Fields (less_last_empty (split_on sep (c ∷ s)))
less_last_empty-Fields sep c [] = elim (Bool-cases (c == sep)) [
  | inl e ↦ ([], _, less_sep sep c [] e)
  | inr e ↦ (c ∷ [], [], less_one sep c e)
]
less_last_empty-Fields sep c (d ∷ s) =
    let stay = less_last_empty-Fields sep d s in
    elim (Bool-cases (c == sep)) [
      | inl e ↦ ([], _, less_sep sep c (d ∷ s) e)
      | inr e ↦ rw (less_other sep c (d ∷ s) e stay) (prepend-Fields (c ∷ []) _)
    ]

joined-chomp : (sep : ℕ) (s : Bytes) → joined sep (less_last_empty (split_on sep s)) ≡ chomp sep s
unfolding chomp
joined-chomp sep [] = unfold split_on less_last_empty in refl
joined-chomp sep (c ∷ []) = elim (Bool-cases (c == sep)) [
  | inl e ↦ rw (less_sep sep c [] e, e) (unfold split_on less_last_empty behind_seps in refl)
  | inr e ↦ rw (less_one sep c e, e) (unfold behind_seps in refl)
]
joined-chomp sep (c ∷ d ∷ s) =
    let stay = less_last_empty-Fields sep d s in
    elim (Bool-cases (c == sep)) [
      | inl e ↦
          rw (less_sep sep c (d ∷ s) e, joined-cons sep _ stay, joined-chomp sep (d ∷ s))
            (ap (λ x. x ∷ chomp sep (d ∷ s)) (ground arith))
      | inr e ↦
          rw
            (less_other sep c (d ∷ s) e stay, joined-prepend sep c _ stay, joined-chomp sep (d ∷ s))
    ]

-- What `unpack` makes of a text that is not empty, packed again, is the text, less a separator at
-- its end.
pub pack-unpack :
    (a : Ascii) (s : Bytes) → s ≢ [] → pack a (unpack a s).1 ≡ returned (chomp a.sep s)
unfolding pack
pack-unpack a [] h = absurd (h refl)
pack-unpack a (c ∷ s) h =
    let (g, gs, e) = less_last_empty-Fields a.sep c s in
    rw (ap (λ r. r.1) (unpack-split_on a (c ∷ s)), e, append_rest_lem a.sep g gs)
      (ap returned (rw e at (joined-chomp a.sep (c ∷ s))))
