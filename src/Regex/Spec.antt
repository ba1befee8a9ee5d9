-- ===== src/Regex/Spec.antt =====
-- What it is for a pattern to spell a text, with no search order in it; the matcher is sound and
-- complete for it. The code is the regex searches of src/include/marko/sockaddr.hpp and socket.hpp.
use marko_cpp.Prelude.{
  Bytes, List, [], ◌∷◌, ◌++◌, append-nil, append_assoc, Option, none, some, true, ◌≡◌, ◌≢◌, refl,
  ap, ◌⊎◌, inl, inr, arith, Bool-cases, All,
}
use marko_cpp.Regex.{
  CharClass, in_class, group, literal, run, Pattern, Found, strip, or_else, behind, capture, Rest,
  then_on, words, greedy, plus, match_here, search_from,
}

abbrev pub OneOf : Bytes → List Bytes → Type 0
OneOf w [] = ⊥
OneOf w (x ∷ ws) = (w ≡ x) ⊎ OneOf w ws

-- A group `w`, of which `P` holds, and then a text of which `Q` holds.
abbrev pub Then : (Bytes → Type 0) → (Bytes → List Bytes → Type 0) → Bytes → List Bytes → Type 0
Then P Q u gs =
    (w : Bytes) × (v : Bytes) × (hs : List Bytes) × P w × (u ≡ w ++ v) × (gs ≡ w ∷ hs) × Q v hs

abbrev pub Spells : Pattern → Bytes → List Bytes → Type 0
Spells [] u gs = (u ≡ []) × (gs ≡ [])
Spells (group ws ∷ p) u gs = Then (λ w. OneOf w ws) (Spells p) u gs
Spells (literal t ∷ p) u gs = (v : Bytes) × (u ≡ t ++ v) × Spells p v gs
Spells (run k ∷ p) u gs = Then (λ w. (w ≢ []) × All (λ c. in_class k c ≡ true) w) (Spells p) u gs

pub strip_sound : (t s r : Bytes) → strip t s ≡ some r → s ≡ t ++ r
unfolding strip
strip_sound [] s r h = ground arith
strip_sound (a ∷ t) [] r h = cc
strip_sound (a ∷ t) (c ∷ s) r h = ground (arith, strip_sound t s r)

pub strip-append : (t r : Bytes) → strip t (t ++ r) ≡ some r
unfolding strip
strip-append [] r = refl
strip-append (a ∷ t) r = ground (arith, strip-append t r)

or_else_inv {ℓ} :
    {A : Type ℓ} (x y : Option A) {a : A} → or_else x y ≡ some a → (x ≡ some a) ⊎ (y ≡ some a)
or_else_inv none y h = inr h
or_else_inv (some x) y h = inl h

capture_inv :
    (t : Bytes) (o : Option Found) {u : Bytes} {gs : List Bytes}
    → capture t o ≡ some (u, gs)
    → (v : Bytes) × (hs : List Bytes) × (o ≡ some (v, hs)) × (u ≡ t ++ v) × (gs ≡ t ∷ hs)
capture_inv t none h = cc
capture_inv t (some (v, hs)) h = (v, hs, refl, ground arith, ground arith)

behind_inv :
    (t : Bytes) (o : Option Found) {u : Bytes} {gs : List Bytes}
    → behind t o ≡ some (u, gs)
    → (v : Bytes) × (o ≡ some (v, gs)) × (u ≡ t ++ v)
behind_inv t none h = cc
behind_inv t (some (v, hs)) h = (v, ground arith, ground arith)

then_on_inv :
    (o : Option Bytes) (next : Rest) {f : Found}
    → then_on o next ≡ some f
    → (r : Bytes) × (o ≡ some r) × (next r ≡ some f)
then_on_inv none next h = cc
then_on_inv (some r) next h = (r, refl, h)

-- `next` answers only for a text that begins with something of which `Q` holds.
abbrev pub Sound : (Bytes → List Bytes → Type 0) → Rest → Type 0
Sound Q next =
    (s u : Bytes) (gs : List Bytes) → next s ≡ some (u, gs) → (r : Bytes) × (s ≡ u ++ r) × Q u gs

module _ (Q : Bytes → List Bytes → Type 0) (next : Rest) (ok : Sound Q next) where
  words-Sound : (ws : List Bytes) → Sound (Then (λ w. OneOf w ws) Q) (words ws next)
  unfolding words
  words-Sound [] s u gs h = cc
  words-Sound (w ∷ ws) s u gs h =
      elim (or_else_inv (capture w (then_on (strip w s) next)) (words ws next s) h) [
        | inl e ↦
            let (v, hs, e', eu, eg) = capture_inv w (then_on (strip w s) next) e in
            let (t, est, e'') = then_on_inv (strip w s) next e' in
            let (r, et, q) = ok t v hs e'' in
            (r, cc (strip_sound w s t est, append_assoc w v r), (w, v, hs, inl refl, eu, eg, q))
        | inr e ↦
            let (r, split, (w', v, hs, one, eu, eg, q)) = words-Sound ws s u gs e in
            (r, split, (w', v, hs, inr one, eu, eg, q))
      ]

  -- `acc` and the characters taken after it are one group.
  abbrev Took : CharClass → Bytes → Bytes → Bytes → List Bytes → Type 0
  Took k s acc u gs =
      (m : Bytes) × (r : Bytes) × (v : Bytes) × (hs : List Bytes) × (s ≡ m ++ (v ++ r))
      × All (λ c. in_class k c ≡ true) m
      × (u ≡ (acc ++ m) ++ v)
      × (gs ≡ (acc ++ m) ∷ hs)
      × Q v hs

  stop_sound :
      (k : CharClass) (s acc u : Bytes) (gs : List Bytes)
      → capture acc (next s) ≡ some (u, gs)
      → Took k s acc u gs
  stop_sound k s acc u gs h =
      let (v, hs, e, eu, eg) = capture_inv acc (next s) h in
      let (r, es, q) = ok s v hs e in ([], r, v, hs, es, tt, rw append-nil eu, rw append-nil eg, q)

  greedy_sound :
      (k : CharClass) (s acc u : Bytes) (gs : List Bytes)
      → greedy k next acc s ≡ some (u, gs)
      → Took k s acc u gs
  unfolding greedy
  greedy_sound k [] acc u gs h = stop_sound k [] acc u gs h
  greedy_sound k (c ∷ s) acc u gs h = elim (Bool-cases (in_class k c)) [
    | inr out ↦ stop_sound k (c ∷ s) acc u gs (rw out at h)
    | inl inside ↦
        elim (or_else_inv (greedy k next (acc ++ c ∷ []) s) (capture acc (next (c ∷ s)))
          (rw inside at h)) [
            | inl e ↦
                let (m, r, v, hs, es, al, eu, eg, q) = greedy_sound k s (acc ++ c ∷ []) u gs e in
                (
                  c ∷ m,
                  r,
                  v,
                  hs,
                  ap (◌∷◌ c) es,
                  (inside, al),
                  rw (append_assoc acc (c ∷ []) m) at eu,
                  rw (append_assoc acc (c ∷ []) m) at eg,
                  q,
                )
            | inr e ↦ stop_sound k (c ∷ s) acc u gs e
          ]
  ]

  plus-Sound :
      (k : CharClass)
      → Sound (Then (λ w. (w ≢ []) × All (λ c. in_class k c ≡ true) w) Q) (plus k next)
  unfolding plus
  plus-Sound k [] u gs h = cc
  plus-Sound k (c ∷ s) u gs h = elim (Bool-cases (in_class k c)) [
    | inr out ↦ cc (rw out at h)
    | inl inside ↦
        let (m, r, v, hs, es, al, eu, eg, q) = greedy_sound k s (c ∷ []) u gs (rw inside at h) in
        (r, cc (es, append_assoc (c ∷ m) v r), (c ∷ m, v, hs, (λ e. cc, (inside, al)), eu, eg, q))
  ]

-- What the matcher returns stands at the front of the text and is spelled by the pattern.
pub match_here-Sound : (p : Pattern) → Sound (Spells p) (match_here p)
unfolding match_here
match_here-Sound [] s u gs h = (s, ground arith, ground arith)
match_here-Sound (group ws ∷ p) s u gs h =
    words-Sound (Spells p) (match_here p) (match_here-Sound p) ws s u gs h
match_here-Sound (literal t ∷ p) s u gs h =
    let (v, e, eu) = behind_inv t (then_on (strip t s) (match_here p)) h in
    let (s', est, e') = then_on_inv (strip t s) (match_here p) e in
    let (r, es, sp) = match_here-Sound p s' v gs e' in
    (r, cc (strip_sound t s s' est, append_assoc t v r), (v, eu, sp))
match_here-Sound (run k ∷ p) s u gs h =
    plus-Sound (Spells p) (match_here p) (match_here-Sound p) k s u gs h

-- The search finds an occurrence.
pub search_from_sound :
    (p : Pattern) (s u : Bytes) (gs : List Bytes)
    → search_from p s ≡ some (u, gs)
    → (before : Bytes) × (after : Bytes) × (s ≡ before ++ (u ++ after)) × Spells p u gs
unfolding search_from
search_from_sound p [] u gs h = let (r, e, sp) = match_here-Sound p [] u gs h in ([], r, e, sp)
search_from_sound p (c ∷ s) u gs h = elim (or_else_inv (match_here p (c ∷ s)) (search_from p s) h) [
  | inl e ↦ let (r, e', sp) = match_here-Sound p (c ∷ s) u gs e in ([], r, e', sp)
  | inr e ↦
      let (before, after, e', sp) = search_from_sound p s u gs e in
      (c ∷ before, after, ap (◌∷◌ c) e', sp)
]
