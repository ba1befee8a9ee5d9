-- ===== src/Regex/Scan.antt =====
-- The two searches of the library as scanners without a search order (the expressions of
-- src/include/marko/sockaddr.hpp and socket.hpp): at each start the longest runs, and the first start
-- that fits.
pub mod Agrees
use marko_cpp.Prelude.{
  sym, ℕ, Bytes, codes, [], ◌∷◌, ◌++◌, append-nil, append_assoc, Option, none, some, true,
  if◌then◌else◌, ◌≡◌, ◌≢◌, refl, ap, ◌∙◌, ◌⊎◌, inl, inr, arith, Bool-cases,
}
use marko_cpp.Regex.{
  Pattern, CharClass, in_class, literal, run, Found, Rest, strip, or_else, behind, capture, then_on,
  words, greedy, plus, match_here, search_from, Smatch, smatch, regex_search, proto, ipport,
  path_class, host_class, port_class,
}

-- The longest text at the front whose characters are all in the class, and what is behind it.
unfoldable pub span : CharClass → Bytes → Bytes × Bytes
span k [] = ([], [])
span k (c ∷ s) = let (m, r) = span k s in if in_class k c then (c ∷ m, r) else ([], c ∷ s)

-- What comes next is decided by the longest run: it cannot begin with a character of the class, or
-- it cannot fail.
abbrev pub Decided : CharClass → Rest → Type 0
Decided k next =
    ((c : ℕ) (s : Bytes) → in_class k c ≡ true → next (c ∷ s) ≡ none)
    ⊎ ((s : Bytes) → next s ≢ none)

or_else_kept : (x y : Option Found) → ((x ≢ none) ⊎ (y ≡ none)) → or_else x y ≡ x
or_else_kept none y (inl ne) = absurd (ne refl)
or_else_kept none y (inr e) = e
or_else_kept (some f) y h = refl

capture-none : (t : Bytes) (o : Option Found) → o ≡ none → capture t o ≡ none
capture-none t o e = rw e refl

capture-some : (t : Bytes) (o : Option Found) → o ≢ none → capture t o ≢ none
capture-some t none ne = absurd (ne refl)
capture-some t (some f) ne = λ e. cc

module _ (k : CharClass) (next : Rest) (decided : Decided k next) where
  kept :
      (c : ℕ) (s t u r : Bytes)
      → in_class k c ≡ true
      → or_else (capture t (next r)) (capture u (next (c ∷ s))) ≡ capture t (next r)
  kept c s t u r inside = elim decided [
    | inl never ↦ or_else_kept _ _ (inr (capture-none u (next (c ∷ s)) (never c s inside)))
    | inr always ↦ or_else_kept _ _ (inl (capture-some t (next r) (always r)))
  ]

  greedy-span :
      (acc s : Bytes) → greedy k next acc s ≡ capture (acc ++ (span k s).0) (next (span k s).1)
  unfolding greedy span
  greedy-span acc [] = rw append-nil
  greedy-span acc (c ∷ s) = elim (Bool-cases (in_class k c)) [
    | inl inside ↦
        rw (inside, greedy-span (acc ++ c ∷ []) s, append_assoc acc (c ∷ []) (span k s).0)
          (kept c s (acc ++ c ∷ (span k s).0) acc (span k s).1 inside)
    | inr outside ↦ rw (outside, append-nil)
  ]

  -- A run takes the longest text.
  unfoldable pub plus_longest : Bytes × Bytes → Option Found
  plus_longest ([], r) = none
  plus_longest (c ∷ m, r) = capture (c ∷ m) (next r)

  pub plus-span : (s : Bytes) → plus k next s ≡ plus_longest (span k s)
  unfolding plus span plus_longest
  plus-span [] = refl
  plus-span (c ∷ s) = elim (Bool-cases (in_class k c)) [
    | inl inside ↦ rw (inside, greedy-span (c ∷ []) s)
    | inr outside ↦ rw (outside)
  ]

-- What a scanner tells, as a match of the search.
abbrev pub told : {A : Type 0} → (A → Found) → Option A → Option Found
told g none = none
told g (some a) = some (g a)

-- The leftmost start at which `at` finds something.
unfoldable pub first_at : {A : Type 0} → (Bytes → Option A) → Bytes → Option A
first_at at [] = at []
first_at at (c ∷ s) = or_else (at (c ∷ s)) (first_at at s)

pub told-or_else :
    {A : Type 0} (g : A → Found) (x y : Option A)
    → told g (or_else x y) ≡ or_else (told g x) (told g y)
told-or_else g none y = refl
told-or_else g (some a) y = refl

pub search_from-first_at :
    {A : Type 0} (g : A → Found) (at : Bytes → Option A) (p : Pattern)
    → ((s : Bytes) → match_here p s ≡ told g (at s))
    → (s : Bytes) → search_from p s ≡ told g (first_at at s)
unfolding search_from first_at
search_from-first_at g at p here [] = here []
search_from-first_at g at p here (c ∷ s) =
    rw (here (c ∷ s), search_from-first_at g at p here s)
      (sym (told-or_else g (at (c ∷ s)) (first_at at s)))

-- A protocol word with the body behind it.
abbrev pub with_body : Bytes → Bytes → Option (Bytes × Bytes)
with_body w [] = none
with_body w (c ∷ body) = some (w, c ∷ body)

abbrev pub behind_word : Bytes → Option Bytes → Option (Bytes × Bytes)
behind_word w none = none
behind_word w (some r) = elim (strip (codes "://") r) [
  | none ↦ none
  | some t ↦ with_body w (span path_class t).0
]

unfoldable pub word_at : Bytes → Bytes → Option (Bytes × Bytes)
word_at w s = behind_word w (strip w s)

unfoldable pub address_at : Bytes → Option (Bytes × Bytes)
unfolding word_at
address_at s =
    or_else (word_at (codes "udp") s) (or_else (word_at (codes "tcp") s) (word_at (codes "unix") s))

abbrev pub address_found : Bytes × Bytes → Found
address_found (w, body) = (w ++ (codes "://" ++ body), w ∷ body ∷ [])

-- A host and a port with a colon between them.
abbrev pub with_port : Bytes → Bytes → Option (Bytes × Bytes)
with_port h [] = none
with_port h (c ∷ port) = some (h, c ∷ port)

abbrev pub behind_host : Bytes × Bytes → Option (Bytes × Bytes)
behind_host ([], r) = none
behind_host (c ∷ h, r) = elim (strip (codes ":") r) [
  | none ↦ none
  | some t ↦ with_port (c ∷ h) (span port_class t).0
]

unfoldable pub host_port_at : Bytes → Option (Bytes × Bytes)
host_port_at s = behind_host (span host_class s)

abbrev pub host_port_found : Bytes × Bytes → Found
host_port_found (h, port) = (h ++ (codes ":" ++ port), h ∷ port ∷ [])

-- The groups of a search that found nothing, or of one that found this.
abbrev pub groups : (Bytes × Bytes → Found) → Option (Bytes × Bytes) → Smatch
groups g o = smatch (told g o)
