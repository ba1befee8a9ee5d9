-- ===== src/Regex/Runs.antt =====
-- What the two searches of the library answer for an address of the documented form.
use marko_cpp.Prelude.{
  Bool-cases, Bool, Bool, ◌&&◌, Bool-cases, Bytes, codes, List, [], ◌∷◌, ◌++◌, append-nil,
  append_assoc, some, true, false, ◌≡◌, ◌≢◌, refl, inl, inr, All, arith,
}
use marko_cpp.Regex.{
  CharClass, in_class, literal, run, Rest, greedy, plus, match_here, regex_search, proto, ipport,
  path_class, host_class, port_class,
}
use marko_cpp.Regex.Spec.{OneOf}

abbrev pub InClass : CharClass → Bytes → Type 0
InClass k = All (λ c. in_class k c ≡ true)

-- The same as a test.
abbrev pub all_in : CharClass → Bytes → Bool
all_in k [] = true
all_in k (c ∷ s) = in_class k c && all_in k s

pub InClass-all_in : (k : CharClass) (s : Bytes) → all_in k s ≡ true → InClass k s
InClass-all_in k [] h = tt
InClass-all_in k (c ∷ s) h = elim (Bool-cases (in_class k c)) [
  | inl e ↦ (e, InClass-all_in k s (rw e at h))
  | inr e ↦ ground arith
]

-- The text does not go on with a character of the class.
abbrev pub Stops : CharClass → Bytes → Type 0
Stops k [] = Unit
Stops k (c ∷ s) = in_class k c ≡ false

module _ (k : CharClass) (next : Rest) (s v : Bytes) (gs : List Bytes) (stops : Stops k s)
    (rest : next s ≡ some (v, gs)) where
  greedy_end : (acc : Bytes) → greedy k next acc s ≡ some (acc ++ v, acc ∷ gs)
  greedy_end acc = go s stops rest
    where
      go :
          (t : Bytes)
          → Stops k t
          → next t ≡ some (v, gs)
          → greedy k next acc t ≡ some (acc ++ v, acc ∷ gs)
      go [] st e = unfold greedy in rw e
      go (c ∷ t) st e = unfold greedy in rw (st, e)

  greedy_whole :
      (m acc : Bytes)
      → InClass k m
      → greedy k next acc (m ++ s) ≡ some ((acc ++ m) ++ v, (acc ++ m) ∷ gs)
  unfolding greedy
  greedy_whole [] acc al = rw append-nil (greedy_end acc)
  greedy_whole (c ∷ m) acc al =
      rw (al.0, greedy_whole m (acc ++ c ∷ []) al.1, append_assoc acc (c ∷ []) m)

  plus_whole : (m : Bytes) → m ≢ [] → InClass k m → plus k next (m ++ s) ≡ some (m ++ v, m ∷ gs)
  plus_whole [] ne al = absurd (ne refl)
  plus_whole (c ∷ m) ne al = unfold plus in rw al.0 (greedy_whole m (c ∷ []) al.1)

-- An address `word://body`, up to the first character that the class of `body` does not hold.
pub regex_search-proto :
    (w body after : Bytes)
    → OneOf w (codes "udp" ∷ codes "tcp" ∷ codes "unix" ∷ [])
    → body ≢ []
    → InClass path_class body
    → Stops path_class after
    → regex_search (w ++ (codes "://" ++ (body ++ after))) proto
      ≡ (w ++ (codes "://" ++ (body ++ []))) ∷ w ∷ body ∷ []
unfolding regex_search
regex_search-proto w body after (inl e) ne al st =
    rw (e, plus_whole path_class (match_here []) after [] [] st refl body ne al)
regex_search-proto w body after (inr (inl e)) ne al st =
    rw (e, plus_whole path_class (match_here []) after [] [] st refl body ne al)
regex_search-proto w body after (inr (inr (inl e))) ne al st =
    rw (e, plus_whole path_class (match_here []) after [] [] st refl body ne al)
regex_search-proto w body after (inr (inr (inr h))) ne al st = absurd h

colon_port :
    (port after : Bytes)
    → port ≢ []
    → InClass port_class port
    → Stops port_class after
    → match_here (literal (codes ":") ∷ run port_class ∷ []) (codes ":" ++ (port ++ after))
      ≡ some (codes ":" ++ (port ++ []), port ∷ [])
unfolding match_here
colon_port port after ne al st =
    rw (plus_whole port_class (match_here []) after [] [] st refl port ne al)

-- A host and a port.
pub regex_search-ipport :
    (host port after : Bytes)
    → host ≢ []
    → InClass host_class host
    → port ≢ []
    → InClass port_class port
    → Stops port_class after
    → regex_search (host ++ (codes ":" ++ (port ++ after))) ipport
      ≡ (host ++ (codes ":" ++ (port ++ []))) ∷ host ∷ port ∷ []
unfolding regex_search in_class
regex_search-ipport [] port after hne hal pne pal st = absurd (hne refl)
regex_search-ipport (c ∷ host) port after hne hal pne pal st = rw (
    plus_whole host_class (match_here (literal (codes ":") ∷ run port_class ∷ []))
      (codes ":" ++ (port ++ after)) (codes ":" ++ (port ++ [])) (port ∷ []) refl
      (colon_port port after pne pal st) (c ∷ host) hne hal)

pub regex_search-proto_whole :
    (w body : Bytes)
    → OneOf w (codes "udp" ∷ codes "tcp" ∷ codes "unix" ∷ [])
    → body ≢ []
    → InClass path_class body
    → regex_search (w ++ (codes "://" ++ body)) proto ≡ (w ++ (codes "://" ++ body)) ∷ w ∷ body ∷ []
regex_search-proto_whole w body one ne al =
    rw append-nil at (regex_search-proto w body [] one ne al tt)

pub regex_search-ipport_whole :
    (host port : Bytes)
    → host ≢ []
    → InClass host_class host
    → port ≢ []
    → InClass port_class port
    → regex_search (host ++ (codes ":" ++ port)) ipport
      ≡ (host ++ (codes ":" ++ port)) ∷ host ∷ port ∷ []
regex_search-ipport_whole host port hne hal pne pal =
    rw append-nil at (regex_search-ipport host port [] hne hal pne pal tt)
