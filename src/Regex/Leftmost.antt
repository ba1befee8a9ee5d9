-- ===== src/Regex/Leftmost.antt =====
-- Which of the matches std::regex_search reports: the one with the leftmost start.
use marko_cpp.Prelude.{
  Bytes, List, [], ◌∷◌, ◌++◌, Option, none, some, length, ◌≤◌, ◌≡◌, refl, ap, subst, arith,
}
use marko_cpp.Regex.{Pattern, Found, match_here, or_else, search_from, regex_search}
use marko_cpp.Regex.Spec.{Spells, match_here-Sound}
use marko_cpp.Regex.Complete.{match_here_complete}
use marko_cpp.Regex.Search.{smatch_inv}

-- No part of `s` that the pattern spells starts before the text `before` ends.
abbrev pub NoneBefore : Pattern → Bytes → Bytes → Type 0
NoneBefore p s before =
    (b v a : Bytes) (hs : List Bytes) → s ≡ b ++ (v ++ a) → Spells p v hs → length before ≤ length b

-- A part `u` of `s` that the pattern spells with the groups `gs`, and that starts leftmost.
abbrev pub Leftmost : Pattern → Bytes → Bytes → List Bytes → Type 0
Leftmost p s u gs =
    (before : Bytes) × (after : Bytes) × (s ≡ before ++ (u ++ after))
    × Spells p u gs
    × NoneBefore p s before

first_start :
    (p : Pattern) (s u : Bytes) (gs : List Bytes)
    → match_here p s ≡ some (u, gs)
    → Leftmost p s u gs
first_start p s u gs h =
    let (r, e, sp) = match_here-Sound p s u gs h in ([], r, e, sp, λ b v a hs e' sp'. omega arith)

later_start :
    (p : Pattern) (c : _) (s u : Bytes) (gs : List Bytes)
    → match_here p (c ∷ s) ≡ none
    → Leftmost p s u gs
    → Leftmost p (c ∷ s) u gs
later_start p c s u gs fails (before, after, e, sp, earliest) =
    (c ∷ before, after, ap (◌∷◌ c) e, sp, none_before)
  where
    none_before : NoneBefore p (c ∷ s) (c ∷ before)
    none_before [] v a hs e' sp' =
        absurd (match_here_complete p v hs a sp' (subst (λ t. match_here p t ≡ none) e' fails))
    none_before (d ∷ b) v a hs e' sp' = omega (arith, earliest b v a hs (cc e') sp')

search_from-Leftmost :
    (p : Pattern) (s u : Bytes) (gs : List Bytes)
    → search_from p s ≡ some (u, gs)
    → Leftmost p s u gs
unfolding search_from
search_from-Leftmost p [] u gs h = first_start p [] u gs h
search_from-Leftmost p (c ∷ s) u gs h =
    go (match_here p (c ∷ s)) refl h (search_from-Leftmost p s u gs)
  where
    go :
        (o : Option Found)
        → match_here p (c ∷ s) ≡ o
        → or_else o (search_from p s) ≡ some (u, gs)
        → (search_from p s ≡ some (u, gs) → Leftmost p s u gs)
        → Leftmost p (c ∷ s) u gs
    go none e h' ih = later_start p c s u gs e (ih h')
    go (some f) e h' ih = first_start p (c ∷ s) u gs (cc (e, h'))

-- The match that the search reports stands in the text, is spelled by the pattern with the reported
-- groups, and no other part of the text that the pattern spells starts further left.
pub regex_search-Leftmost :
    (s : Bytes) (p : Pattern) (u : Bytes) (gs : List Bytes)
    → regex_search s p ≡ u ∷ gs
    → Leftmost p s u gs
unfolding regex_search
regex_search-Leftmost s p u gs h = search_from-Leftmost p s u gs (smatch_inv (search_from p s) h)
