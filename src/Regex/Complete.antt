-- ===== src/Regex/Complete.antt =====
-- The matcher finds a match wherever the pattern spells one: its backtracking is exhaustive.
use marko_cpp.Prelude.{
  Bytes, List, [], ◌∷◌, ◌++◌, append_assoc, Option, none, some, true, ◌≡◌, ◌≢◌, refl, inl, inr,
  Bool-cases, All,
}
use marko_cpp.Regex.{
  strip, CharClass, in_class, group, literal, run, Pattern, Found, or_else, behind, capture, Rest,
  then_on, words, greedy, plus, match_here, search_from,
}
use marko_cpp.Regex.Spec.{OneOf, Spells, strip-append}

or_else-ne-none_left {ℓ} : {A : Type ℓ} (x y : Option A) → x ≢ none → or_else x y ≢ none
or_else-ne-none_left none y h = absurd (h refl)
or_else-ne-none_left (some a) y h = h

or_else-ne-none_right {ℓ} : {A : Type ℓ} (x y : Option A) → y ≢ none → or_else x y ≢ none
or_else-ne-none_right none y h = h
or_else-ne-none_right (some a) y h = λ e. cc

capture-ne-none : (t : Bytes) (o : Option Found) → o ≢ none → capture t o ≢ none
capture-ne-none t none h = absurd (h refl)
capture-ne-none t (some (v, hs)) h = λ e. cc

behind-ne-none : (t : Bytes) (o : Option Found) → o ≢ none → behind t o ≢ none
behind-ne-none t none h = absurd (h refl)
behind-ne-none t (some (v, hs)) h = λ e. cc

words_complete :
    (next : Rest) (ws : List Bytes) (w s : Bytes)
    → OneOf w ws
    → next s ≢ none
    → words ws next (w ++ s) ≢ none
unfolding words
words_complete next [] w s one h = absurd one
words_complete next (x ∷ ws) w s (inl e) h =
    or_else-ne-none_left (capture x (then_on (strip x (w ++ s)) next)) (words ws next (w ++ s))
      (rw (e, strip-append x s) (capture-ne-none x (next s) h))
words_complete next (x ∷ ws) w s (inr one) h =
    or_else-ne-none_right _ _ (words_complete next ws w s one h)

module _ (k : CharClass) (next : Rest) where
  greedy_stop : (acc s : Bytes) → next s ≢ none → greedy k next acc s ≢ none
  unfolding greedy
  greedy_stop acc [] h = capture-ne-none acc (next []) h
  greedy_stop acc (c ∷ s) h =
      let stop = capture-ne-none acc (next (c ∷ s)) h in
      elim (Bool-cases (in_class k c)) [
        | inl inside ↦ rw inside (or_else-ne-none_right (greedy k next (acc ++ c ∷ []) s) _ stop)
        | inr out ↦ rw out stop
      ]

  greedy_complete :
      (m acc s : Bytes)
      → All (λ c. in_class k c ≡ true) m
      → next s ≢ none
      → greedy k next acc (m ++ s) ≢ none
  unfolding greedy
  greedy_complete [] acc s al h = greedy_stop acc s h
  greedy_complete (c ∷ m) acc s al h =
      rw al.0 (or_else-ne-none_left _ _ (greedy_complete m (acc ++ c ∷ []) s al.1 h))

  plus_complete :
      (m s : Bytes)
      → m ≢ []
      → All (λ c. in_class k c ≡ true) m
      → next s ≢ none
      → plus k next (m ++ s) ≢ none
  unfolding plus
  plus_complete [] s ne al h = absurd (ne refl)
  plus_complete (c ∷ m) s ne al h = rw al.0 (greedy_complete m (c ∷ []) s al.1 h)

-- What the pattern spells is matched, whatever text comes behind it.
pub match_here_complete :
    (p : Pattern) (u : Bytes) (gs : List Bytes) (after : Bytes)
    → Spells p u gs
    → match_here p (u ++ after) ≢ none
unfolding match_here
match_here_complete [] u gs after sp = λ e. cc
match_here_complete (group ws ∷ p) u gs after (w, v, hs, one, eu, eg, sp) =
    rw (eu, append_assoc w v after)
      (words_complete (match_here p) ws w (v ++ after) one (match_here_complete p v hs after sp))
match_here_complete (literal t ∷ p) u gs after (v, eu, sp) =
    rw (eu, append_assoc t v after, strip-append t (v ++ after))
      (behind-ne-none t _ (match_here_complete p v gs after sp))
match_here_complete (run k ∷ p) u gs after (w, v, hs, (ne, al), eu, eg, sp) =
    rw (eu, append_assoc w v after)
      (plus_complete k (match_here p) w (v ++ after) ne al (match_here_complete p v hs after sp))

search_from_here : (p : Pattern) (s : Bytes) → match_here p s ≢ none → search_from p s ≢ none
unfolding search_from
search_from_here p [] h = h
search_from_here p (c ∷ s) h = or_else-ne-none_left _ _ h

pub search_from_complete :
    (p : Pattern) (before u : Bytes) (gs : List Bytes) (after : Bytes)
    → Spells p u gs
    → search_from p (before ++ (u ++ after)) ≢ none
unfolding search_from
search_from_complete p [] u gs after sp =
    search_from_here p (u ++ after) (match_here_complete p u gs after sp)
search_from_complete p (c ∷ before) u gs after sp =
    or_else-ne-none_right _ _ (search_from_complete p before u gs after sp)
