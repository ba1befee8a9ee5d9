-- ===== src/Ascii/RoundTrip.antt =====
-- What comes back when fields are packed and unpacked again (src/include/marko/ascii.hpp).
use marko_cpp.Prelude.{
  ℕ, Bytes, List, [], ◌∷◌, ◌++◌, append-nil, append_assoc, ◌≡◌, ◌≢◌, refl, sym, ◌∙◌, arith, All,
}
use marko_cpp.Outcome.{returned, ◌>>=◌}
use marko_cpp.Ascii.{last_token, Ascii, getlines, unpack, append_rest, pack}

abbrev pub Lacks : ℕ → Bytes → Type 0
Lacks sep = All (λ c. c ≢ sep)

-- The last of the fields `v ∷ vs` is not empty.
abbrev pub LastFull : Bytes → List Bytes → Type 0
LastFull v [] = v ≢ []
LastFull v (w ∷ vs) = LastFull w vs

-- Every field behind a separator.
unfoldable pub behind_seps : ℕ → List Bytes → Bytes
behind_seps sep [] = []
behind_seps sep (v ∷ vs) = sep ∷ (v ++ behind_seps sep vs)

pub append_rest_lem :
    (sep : ℕ) (out : Bytes) (vs : List Bytes) → append_rest sep out vs ≡ out ++ behind_seps sep vs
unfolding append_rest behind_seps
append_rest_lem sep out [] = sym (append-nil out)
append_rest_lem sep out (v ∷ vs) =
    append_rest_lem sep (out ++ sep ∷ v) vs ∙ (append_assoc out (sep ∷ v) (behind_seps sep vs))

getlines_token :
    (sep : ℕ) (v rest cur : Bytes) (toks : List Bytes)
    → Lacks sep v
    → getlines sep cur toks (v ++ rest) ≡ getlines sep (cur ++ v) toks rest
unfolding getlines
getlines_token sep [] rest cur toks h = rw append-nil
getlines_token sep (c ∷ v) rest cur toks h =
    ground (arith, getlines_token sep v rest (cur ++ c ∷ []) toks h.1, append_assoc cur (c ∷ []) v)

getlines_sep :
    (sep : ℕ) (s cur : Bytes) (toks : List Bytes)
    → getlines sep cur toks (sep ∷ s) ≡ getlines sep [] (toks ++ cur ∷ []) s
unfolding getlines
getlines_sep sep s cur toks = ground arith

last_token_full :
    (cur : Bytes) (toks : List Bytes) → cur ≢ [] → last_token cur toks ≡ toks ++ cur ∷ []
last_token_full [] toks h = absurd (h refl)
last_token_full (c ∷ cur) toks h = refl

getlines-behind_seps :
    (sep : ℕ) (vs : List Bytes) (cur : Bytes) (toks : List Bytes)
    → All (Lacks sep) vs
    → LastFull cur vs
    → getlines sep cur toks (behind_seps sep vs) ≡ toks ++ (cur ∷ vs)
unfolding behind_seps
getlines-behind_seps sep [] cur toks h full = unfold getlines in last_token_full cur toks full
getlines-behind_seps sep (v ∷ vs) cur toks h full =
    rw
      (
        getlines_sep sep (v ++ behind_seps sep vs) cur toks,
        getlines_token sep v (behind_seps sep vs) [] (toks ++ cur ∷ []) h.0,
        getlines-behind_seps sep vs v (toks ++ cur ∷ []) h.1 full,
      )
      (append_assoc toks (cur ∷ []) (v ∷ vs))

getlines-behind_seps_empty :
    (sep : ℕ) (vs : List Bytes) (cur : Bytes) (toks : List Bytes)
    → All (Lacks sep) vs
    → getlines sep cur toks (behind_seps sep (vs ++ [] ∷ [])) ≡ toks ++ (cur ∷ vs)
unfolding behind_seps
getlines-behind_seps_empty sep [] cur toks h =
    getlines_sep sep [] cur toks ∙ (unfold getlines in refl)
getlines-behind_seps_empty sep (v ∷ vs) cur toks h =
    rw
      (
        getlines_sep sep (v ++ behind_seps sep (vs ++ [] ∷ [])) cur toks,
        getlines_token sep v (behind_seps sep (vs ++ [] ∷ [])) [] (toks ++ cur ∷ []) h.0,
        getlines-behind_seps_empty sep vs v (toks ++ cur ∷ []) h.1,
      )
      (append_assoc toks (cur ∷ []) (v ∷ vs))

-- Fields that are packed come back from `unpack`, if none holds the separator and the last is not
-- empty; the object keeps them as its tokens.
pub unpack-pack_fields :
    (a : Ascii) (v : Bytes) (vs : List Bytes)
    → Lacks a.sep v
    → All (Lacks a.sep) vs
    → LastFull v vs
    → (do s ← pack a (v ∷ vs); returned (unpack a s))
      ≡ returned (record a { toks = v ∷ vs }, v ∷ vs)
unfolding pack unpack
unpack-pack_fields a v vs hv hvs full = rw (
  append_rest_lem a.sep v vs,
  getlines_token a.sep v (behind_seps a.sep vs) [] [] hv,
  getlines-behind_seps a.sep vs v [] hvs full,
)

-- Where no field holds the separator, an empty last field behind another one is lost: packing the
-- fields with it and unpacking gives them without it.
pub unpack-pack_last_empty :
    (a : Ascii) (v : Bytes) (vs : List Bytes)
    → Lacks a.sep v
    → All (Lacks a.sep) vs
    → (do s ← pack a (v ∷ (vs ++ [] ∷ [])); returned (unpack a s).1) ≡ returned (v ∷ vs)
unfolding pack unpack
unpack-pack_last_empty a v vs hv hvs = rw (
  append_rest_lem a.sep v (vs ++ [] ∷ []),
  getlines_token a.sep v (behind_seps a.sep (vs ++ [] ∷ [])) [] [] hv,
  getlines-behind_seps_empty a.sep vs v [] hvs,
)
