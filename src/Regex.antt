-- ===== src/Regex.antt =====
-- std::regex as the library uses it: a pattern of groups of words, literal text and greedy classes,
-- searched by ECMAScript's rules (leftmost start, first alternative, longest run that lets the rest
-- match). The children say what a match is and prove the search right.
pub mod Spec
pub mod Complete
pub mod Runs
pub mod Search
pub mod Leftmost
pub mod Scan
use marko_cpp.Prelude.{
  ℕ, Bytes, codes, List, [], ◌∷◌, ◌++◌, Option, none, some, Bool, true, false, ◌&&◌, ◌||◌, leb,
  if◌then◌else◌, ◌≡◌, refl,
}

-- A character class `[…]`: its ranges, a single character being a range of one.
abbrev pub CharClass : Type 0
CharClass = List (ℕ × ℕ)

unfoldable pub in_class : CharClass → ℕ → Bool
in_class [] c = false
in_class ((lo, hi) ∷ ranges) c = (leb lo c && leb c hi) || in_class ranges c

-- `(a|b|c)`, a literal text, and `([…]+)`.
pub data Piece : Type 0 where
  group : List Bytes → Piece
  literal : Bytes → Piece
  run : CharClass → Piece

abbrev pub Pattern : Type 0
Pattern = List Piece

-- What a match took: the whole text of it, and its groups.
abbrev pub Found : Type 0
Found = Bytes × List Bytes

-- The rest of `s` behind `t`, if `s` begins with `t`.
unfoldable pub strip : Bytes → Bytes → Option Bytes
strip [] s = some s
strip (a ∷ t) [] = none
strip (a ∷ t) (c ∷ s) = if leb a c && leb c a then strip t s else none

abbrev pub or_else {ℓ} : {A : Type ℓ} → Option A → Option A → Option A
or_else none y = y
or_else (some x) y = some x

-- The match goes on behind text `t`: as part of the whole, or as a group of its own too.
abbrev pub behind : Bytes → Option Found → Option Found
behind t none = none
behind t (some (whole, groups)) = some (t ++ whole, groups)

abbrev pub capture : Bytes → Option Found → Option Found
capture t none = none
capture t (some (whole, groups)) = some (t ++ whole, t ∷ groups)

abbrev pub Rest : Type 0
Rest = Bytes → Option Found

abbrev pub then_on : Option Bytes → Rest → Option Found
then_on none next = none
then_on (some s) next = next s

-- The first word that begins the text and lets the rest match.
unfoldable pub words : List Bytes → Rest → Rest
unfolding strip
words [] next s = none
words (w ∷ ws) next s = or_else (capture w (then_on (strip w s) next)) (words ws next s)

-- `acc` is taken; take as many more characters as there are, and give back while the rest fails.
unfoldable pub greedy : CharClass → Rest → Bytes → Rest
greedy k next acc [] = capture acc (next [])
greedy k next acc (c ∷ s) =
    let more = greedy k next (acc ++ c ∷ []) s in
    let stop = capture acc (next (c ∷ s)) in if in_class k c then or_else more stop else stop

-- `+` wants one character.
unfoldable pub plus : CharClass → Rest → Rest
unfolding greedy
plus k next [] = none
plus k next (c ∷ s) = if in_class k c then greedy k next (c ∷ []) s else none

-- The pattern at the front of the text.
unfoldable pub match_here : Pattern → Rest
unfolding words plus strip
match_here [] s = some ([], [])
match_here (group ws ∷ p) s = words ws (match_here p) s
match_here (literal t ∷ p) s = behind t (then_on (strip t s) (match_here p))
match_here (run k ∷ p) s = plus k (match_here p) s

-- `std::smatch`: empty, or the whole match and its groups.
abbrev pub Smatch : Type 0
Smatch = List Bytes

abbrev pub smatch : Option Found → Smatch
smatch none = []
smatch (some (whole, groups)) = whole ∷ groups

-- The leftmost start at which the pattern matches.
unfoldable pub search_from : Pattern → Bytes → Option Found
unfolding match_here
search_from p [] = match_here p []
search_from p (c ∷ s) = or_else (match_here p (c ∷ s)) (search_from p s)

-- std::regex_search
unfoldable pub regex_search : Bytes → Pattern → Smatch
unfolding search_from
regex_search s p = smatch (search_from p s)

-- "[a-z,A-Z,\\d,\\/,.,*,_,-,:]". The commas stand in the class, and `,-,` is the range from comma to
-- comma.
abbrev pub path_class : CharClass
path_class =
    (b'a', b'z')
    ∷ (b',', b',')
    ∷ (b'A', b'Z')
    ∷ (b',', b',')
    ∷ (b'0', b'9')
    ∷ (b',', b',')
    ∷ (b'/', b'/')
    ∷ (b',', b',')
    ∷ (b'.', b'.')
    ∷ (b',', b',')
    ∷ (b'*', b'*')
    ∷ (b',', b',')
    ∷ (b'_', b'_')
    ∷ (b',', b',')
    ∷ (b':', b':')
    ∷ []

-- "(udp|tcp|unix)\\:\\/\\/([…]+)"
abbrev pub proto : Pattern
proto =
    group (codes "udp" ∷ codes "tcp" ∷ codes "unix" ∷ [])
    ∷ literal (codes "://")
    ∷ run path_class
    ∷ []

-- "[a-z,A-Z,\\d,\\/,.,*]"
abbrev pub host_class : CharClass
host_class =
    (b'a', b'z')
    ∷ (b',', b',')
    ∷ (b'A', b'Z')
    ∷ (b',', b',')
    ∷ (b'0', b'9')
    ∷ (b',', b',')
    ∷ (b'/', b'/')
    ∷ (b',', b',')
    ∷ (b'.', b'.')
    ∷ (b',', b',')
    ∷ (b'*', b'*')
    ∷ []

-- "[*,\\d]"
abbrev pub port_class : CharClass
port_class = (b'*', b'*') ∷ (b',', b',') ∷ (b'0', b'9') ∷ []

-- "([…]+):([…]+)"
abbrev pub ipport : Pattern
ipport = run host_class ∷ literal (codes ":") ∷ run port_class ∷ []
