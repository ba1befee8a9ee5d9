-- ===== src/Regex/Scan/Agrees.antt =====
-- The two expressions of the library are their scanners (src/include/marko/sockaddr.hpp, socket.hpp).
use marko_cpp.Prelude.{
  ℕ, Bytes, codes, [], ◌∷◌, append-nil, Option, none, some, true, ◌≡◌, ◌≢◌, refl, ap, ◌∙◌, inl, inr,
  arith,
}
use marko_cpp.Regex.{
  in_class, literal, run, Found, strip, or_else, behind, capture, then_on, words, match_here,
  smatch, regex_search, proto, ipport, path_class, host_class, port_class,
}
use marko_cpp.Regex.Scan.{
  Decided, address_at, address_found, behind_host, behind_word, first_at, groups, host_port_at,
  host_port_found, plus-span, plus_longest, search_from-first_at, span, told, told-or_else,
  with_body, with_port, word_at,
}

body_Decided : Decided path_class (match_here [])
unfolding match_here
body_Decided = inr (λ s e. cc)

body_found :
    (w : Bytes) (split : Bytes × Bytes)
    → capture w (behind (codes "://") (plus_longest path_class (match_here []) body_Decided split))
      ≡ told address_found (with_body w split.0)
unfolding plus_longest match_here
body_found w ([], r) = refl
body_found w (c ∷ body, r) = rw append-nil

slashes_found :
    (w : Bytes) (o : Option Bytes)
    → capture w (behind (codes "://") (then_on o (match_here (run path_class ∷ []))))
      ≡ told address_found (elim o [ none ↦ none | some r ↦ with_body w (span path_class r).0 ])
slashes_found w none = refl
slashes_found w (some r) =
    unfold match_here in
    rw (plus-span path_class (match_here []) body_Decided r) (body_found w (span path_class r))

word_found :
    (w : Bytes) (o : Option Bytes)
    → capture w (then_on o (match_here (literal (codes "://") ∷ run path_class ∷ [])))
      ≡ told address_found (behind_word w o)
unfolding match_here
word_found w none = refl
word_found w (some r) = slashes_found w (strip (codes "://") r)

or_else-none : (x : Option Found) → or_else x none ≡ x
or_else-none none = refl
or_else-none (some f) = refl

words_found :
    (s : Bytes)
    → words
        (codes "udp" ∷ codes "tcp" ∷ codes "unix" ∷ [])
        (match_here (literal (codes "://") ∷ run path_class ∷ []))
        s
      ≡ told address_found (address_at s)
unfolding words address_at word_at
words_found s =
    rw
      (
        told-or_else address_found (word_at (codes "udp") s)
            (or_else (word_at (codes "tcp") s) (word_at (codes "unix") s)),
        told-or_else address_found (word_at (codes "tcp") s) (word_at (codes "unix") s),
        word_found (codes "udp") (strip (codes "udp") s),
        word_found (codes "tcp") (strip (codes "tcp") s),
        word_found (codes "unix") (strip (codes "unix") s),
        or_else-none,
      )
      refl

proto_found : (s : Bytes) → match_here proto s ≡ told address_found (address_at s)
unfolding match_here
proto_found s = words_found s

port_Decided : Decided port_class (match_here [])
unfolding match_here
port_Decided = inr (λ s e. cc)

not_colon : (c : ℕ) → in_class host_class c ≡ true → c ≢ b':'
unfolding in_class
not_colon c inside e = cc (rw e at inside)

no_colon : (c : ℕ) (s : Bytes) → c ≢ b':' → strip (codes ":") (c ∷ s) ≡ none
unfolding strip
no_colon c s ne = ground arith

host_Decided : Decided host_class (match_here (literal (codes ":") ∷ run port_class ∷ []))
unfolding match_here
host_Decided = inl (λ c s inside. rw (no_colon c s (not_colon c inside)) refl)

port_found :
    (h : Bytes) (split : Bytes × Bytes)
    → capture h (behind (codes ":") (plus_longest port_class (match_here []) port_Decided split))
      ≡ told host_port_found (with_port h split.0)
unfolding plus_longest match_here
port_found h ([], r) = refl
port_found h (c ∷ port, r) = rw append-nil

colon_found :
    (h : Bytes) (o : Option Bytes)
    → capture h (behind (codes ":") (then_on o (match_here (run port_class ∷ []))))
      ≡ told host_port_found (elim o [ none ↦ none | some r ↦ with_port h (span port_class r).0 ])
colon_found h none = refl
colon_found h (some r) =
    unfold match_here in
    rw (plus-span port_class (match_here []) port_Decided r) (port_found h (span port_class r))

host_found :
    (split : Bytes × Bytes)
    → plus_longest host_class
        (match_here (literal (codes ":") ∷ run port_class ∷ []))
        host_Decided
        split
      ≡ told host_port_found (behind_host split)
unfolding plus_longest match_here
host_found ([], r) = refl
host_found (c ∷ h, r) = colon_found (c ∷ h) (strip (codes ":") r)

ipport_found : (s : Bytes) → match_here ipport s ≡ told host_port_found (host_port_at s)
unfolding match_here host_port_at
ipport_found s =
    plus-span host_class (match_here (literal (codes ":") ∷ run port_class ∷ [])) host_Decided s
    ∙ host_found (span host_class s)

-- On every text the search of the address expression gives the first start at which one of the words
-- udp, tcp and unix stands with `://` and a character of the path class behind it, and there the
-- longest text of that class; the search of the other expression gives the first start of a host and
-- a port with a colon between them, each of them the longest.
pub regex_search-first_at :
    (s : Bytes)
    → (regex_search s proto ≡ groups address_found (first_at address_at s))
      × (regex_search s ipport ≡ groups host_port_found (first_at host_port_at s))
unfolding regex_search
regex_search-first_at s = (
  ap smatch (search_from-first_at address_found address_at proto proto_found s),
  ap smatch (search_from-first_at host_port_found host_port_at ipport ipport_found s),
)
