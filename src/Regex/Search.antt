-- ===== src/Regex/Search.antt =====
-- std::regex_search against the meaning of patterns.
use marko_cpp.Prelude.{Bytes, List, [], ◌∷◌, ◌++◌, Option, none, some, ◌≡◌, ◌≢◌, refl, arith}
use marko_cpp.Regex.{Pattern, Found, smatch, search_from, regex_search}
use marko_cpp.Regex.Spec.{Spells, search_from_sound}
use marko_cpp.Regex.Complete.{search_from_complete}

pub smatch_inv :
    (o : Option Found) {u : Bytes} {gs : List Bytes} → smatch o ≡ u ∷ gs → o ≡ some (u, gs)
smatch_inv none h = cc
smatch_inv (some (v, hs)) h = ground arith

smatch_nil : (o : Option Found) → smatch o ≡ [] → o ≡ none
smatch_nil none h = refl
smatch_nil (some (v, hs)) h = cc

-- A match that the search reports stands in the text, and the pattern spells it with exactly the
-- reported groups.
pub regex_search_sound :
    (s : Bytes) (p : Pattern) (u : Bytes) (gs : List Bytes)
    → regex_search s p ≡ u ∷ gs
    → (before : Bytes) × (after : Bytes) × (s ≡ before ++ (u ++ after)) × Spells p u gs
unfolding regex_search
regex_search_sound s p u gs h = search_from_sound p s u gs (smatch_inv (search_from p s) h)

-- The search reports no match only if the pattern spells no part of the text.
pub regex_search_complete :
    (p : Pattern) (before u after : Bytes) (gs : List Bytes)
    → Spells p u gs
    → regex_search (before ++ (u ++ after)) p ≢ []
unfolding regex_search
regex_search_complete p before u after gs sp e =
    search_from_complete p before u gs after sp (smatch_nil (search_from p _) e)
