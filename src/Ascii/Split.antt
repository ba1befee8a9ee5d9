-- ===== src/Ascii/Split.antt =====
-- What `unpack` of the class Ascii (src/include/marko/ascii.hpp) makes of any text, against splitting
-- at every separator.
use marko_cpp.Prelude.{
  Bool-cases, ℕ, Bytes, List, [], ◌∷◌, ◌++◌, append-nil, append_assoc, ◌==◌, if◌then◌else◌, ◌≡◌,
  refl, sym, ◌∙◌, inl, inr, arith,
}
use marko_cpp.Ascii.{Ascii, getlines, unpack}

-- Text in front of the first field.
abbrev pub prepend : Bytes → List Bytes → List Bytes
prepend cur [] = cur ∷ []
prepend cur (f ∷ fs) = (cur ++ f) ∷ fs

-- The fields of a text, all of them: one more than it has separators.
unfoldable pub split_on : ℕ → Bytes → List Bytes
split_on sep [] = [] ∷ []
split_on sep (c ∷ s) =
    let rest = split_on sep s in if c == sep then [] ∷ rest else prepend (c ∷ []) rest

-- The fields without the last one, if that is empty.
unfoldable pub less_last_empty : List Bytes → List Bytes
less_last_empty [] = []
less_last_empty ([] ∷ []) = []
less_last_empty ((c ∷ f) ∷ []) = (c ∷ f) ∷ []
less_last_empty (f ∷ g ∷ fs) = f ∷ less_last_empty (g ∷ fs)

abbrev pub Fields : List Bytes → Type 0
Fields fs = (g : Bytes) × (gs : List Bytes) × (fs ≡ g ∷ gs)

pub split_on-Fields : (sep : ℕ) (s : Bytes) → Fields (split_on sep s)
unfolding split_on
split_on-Fields sep [] = ([], [], refl)
split_on-Fields sep (c ∷ s) = elim (Bool-cases (c == sep)) [
  | inl e ↦ ([], split_on sep s, rw e)
  | inr e ↦ let (g, gs, e') = split_on-Fields sep s in (c ∷ g, gs, rw (e, e'))
]

pub less_last_empty-cons :
    (f : Bytes) (fs : List Bytes) → Fields fs → less_last_empty (f ∷ fs) ≡ f ∷ less_last_empty fs
less_last_empty-cons f fs (g, gs, e) = rw e (go f)
  where
    go : (f : Bytes) → less_last_empty (f ∷ g ∷ gs) ≡ f ∷ less_last_empty (g ∷ gs)
    go f = unfold less_last_empty in refl

prepend-prepend :
    (cur : Bytes) (c : ℕ) (fs : List Bytes)
    → Fields fs
    → prepend (cur ++ c ∷ []) fs ≡ prepend cur (prepend (c ∷ []) fs)
prepend-prepend cur c fs (g, gs, e) = rw (e, append_assoc cur (c ∷ []) g)

prepend-nil : (fs : List Bytes) → Fields fs → prepend [] fs ≡ fs
prepend-nil fs (g, gs, e) = rw e

getlines-cons :
    (sep : ℕ) (cur : Bytes) (toks : List Bytes) (c : ℕ) (s : Bytes)
    → getlines sep cur toks (c ∷ s) ≡ (
        if c == sep
        then getlines sep [] (toks ++ cur ∷ []) s
        else getlines sep (cur ++ c ∷ []) toks s)
unfolding getlines
getlines-cons sep cur toks c s = ground arith

pub getlines-split_on :
    (sep : ℕ) (cur : Bytes) (toks : List Bytes) (s : Bytes)
    → getlines sep cur toks s ≡ toks ++ less_last_empty (prepend cur (split_on sep s))
unfolding split_on
getlines-split_on sep [] toks [] = unfold getlines less_last_empty in sym (append-nil toks)
getlines-split_on sep (c ∷ cur) toks [] = unfold getlines less_last_empty in rw append-nil
getlines-split_on sep cur toks (c ∷ s) =
    let some_fields = split_on-Fields sep s in
    getlines-cons sep cur toks c s ∙ elim (Bool-cases (c == sep)) [
      | inl e ↦
          rw
            (
              e,
              getlines-split_on sep [] (toks ++ cur ∷ []) s,
              prepend-nil _ some_fields,
              append-nil,
              less_last_empty-cons cur _ some_fields,
            )
            (append_assoc toks (cur ∷ []) _)
      | inr e ↦
          rw (e, getlines-split_on sep (cur ++ c ∷ []) toks s, prepend-prepend cur c _ some_fields)
    ]

-- `unpack` gives the fields between all the separators of a text, less an empty one behind the last
-- separator, and keeps them in the object.
pub unpack-split_on :
    (a : Ascii) (s : Bytes)
    → let fields = less_last_empty (split_on a.sep s) in
      unpack a s ≡ (record a { toks = fields }, fields)
unfolding unpack
unpack-split_on a s = rw (getlines-split_on a.sep [] [] s, prepend-nil _ (split_on-Fields a.sep s))
