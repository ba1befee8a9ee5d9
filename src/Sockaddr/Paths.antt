-- ===== src/Sockaddr/Paths.antt =====
-- `unix_sockaddr` and `unix2string` of src/include/marko/sockaddr.hpp on addresses `unix://path`.
use marko_cpp.Prelude.{
  take, some, none, Option, ap, Bool-cases, drop, zero, ◌==◌, leb_iff, ltb, ℕ, suc, ◌-◌, ◌<◌, ◌≤◌,
  Bytes, codes, [], ◌∷◌, ◌++◌, append-nil, true, leb, if◌then◌else◌, replicate, overwrite, length,
  ◌≡◌, ◌≢◌, refl, sym, ◌∙◌, inl, inr, arith,
}
use marko_cpp.Outcome.{threw, Outcome, returned, undefined, ◌>>=◌, ◌>>◌, require}
use marko_cpp.Regex.{path_class, in_class}
use marko_cpp.Regex.Runs.{InClass, Stops, regex_search-proto}
use marko_cpp.Sockaddr.{
  Inet, af_unix, sun_path_size, fresh, proto_match, filter, unix_sockaddr, c_string, unix2string,
}

-- The whole answer on a path, with what may follow the part that the expression takes.
unix_sockaddr_lem :
    (net : Inet) (path after : Bytes)
    → path ≢ []
    → InClass path_class path
    → Stops path_class after
    → unix_sockaddr net (codes "unix://" ++ (path ++ after)) ≡ (do
      require (leb (length path) sun_path_size)
      returned (record { sun_family = af_unix; sun_path = overwrite path (fresh net) }))
unfolding unix_sockaddr filter proto_match
unix_sockaddr_lem net path after ne al st =
    rw (regex_search-proto (codes "unix") path after (inr (inr (inl refl))) ne al st) (ground arith)

pub unix_sockaddr_whole :
    (net : Inet) (path : Bytes)
    → path ≢ []
    → InClass path_class path
    → unix_sockaddr net (codes "unix://" ++ path) ≡ (
        if leb (length path) sun_path_size
        then returned (record { sun_family = af_unix; sun_path = overwrite path (fresh net) })
        else undefined)
unix_sockaddr_whole net path ne al =
    rw append-nil at (unix_sockaddr_lem net path [] ne al tt) ∙ ground arith

pub unix_sockaddr_fits :
    (net : Inet) (path : Bytes)
    → path ≢ []
    → InClass path_class path
    → length path ≤ sun_path_size
    → unix_sockaddr net (codes "unix://" ++ path)
      ≡ returned (record { sun_family = af_unix; sun_path = overwrite path (fresh net) })
unix_sockaddr_fits net path ne al fits =
    unix_sockaddr_whole net path ne al ∙ rw ((leb_iff (length path) sun_path_size).1 fits)

path-ne-zero : (c : ℕ) → in_class path_class c ≡ true → c ≢ 0
unfolding in_class
path-ne-zero c h = ground arith

-- Characters other than NUL are read, and then what stands behind them.
pub c_string-append :
    (s rest : Bytes)
    → InClass path_class s
    → c_string (s ++ rest) ≡ (do t ← c_string rest; returned (s ++ t))
unfolding c_string
c_string-append [] rest h = whole (c_string rest)
  where
    whole : (o : Outcome Bytes) → o ≡ (do t ← o; returned t)
    whole (returned t) = refl
    whole (threw e) = refl
    whole undefined = refl
c_string-append (c ∷ s) rest h = rw (c_string-append s rest h.1) (read_on (c_string rest))
  where
    read_on :
        (o : Outcome Bytes)
        → (if c == 0 then returned [] else (do t ← (do u ← o; returned (s ++ u)); returned (c ∷ t)))
          ≡ (do u ← o; returned (c ∷ (s ++ u)))
    read_on (returned u) = ground (arith, path-ne-zero c h.0)
    read_on (threw e) = ground (arith, path-ne-zero c h.0)
    read_on undefined = ground (arith, path-ne-zero c h.0)

pub c_string_terminated :
    (s : Bytes) (n : ℕ) → InClass path_class s → c_string (s ++ replicate (suc n) 0) ≡ returned s
unfolding c_string
c_string_terminated s n h = c_string-append s (replicate (suc n) 0) h ∙ ap returned (append-nil s)

pub c_string_unterminated : (s : Bytes) → InClass path_class s → c_string s ≡ undefined
unfolding c_string
c_string_unterminated s h = ap c_string (sym (append-nil s)) ∙ c_string-append s [] h

-- Behind `n` of `k` zeros a text ends, and behind all of them what follows stands.
c_string-zeros :
    (k n : ℕ) (rest : Bytes) → n < k → c_string (drop n (replicate k 0 ++ rest)) ≡ returned []
unfolding c_string
c_string-zeros zero n rest h = absurd (omega (arith, h))
c_string-zeros (suc k) zero rest h = refl
c_string-zeros (suc k) (suc n) rest h = c_string-zeros k n rest (omega (arith, h))

drop-zeros : (k n : ℕ) (rest : Bytes) → k ≤ n → drop n (replicate k 0 ++ rest) ≡ drop (n - k) rest
drop-zeros zero n rest h = let e : n ≡ n - 0 = omega arith in ap (λ m. drop m rest) e
drop-zeros (suc k) zero rest h = absurd (omega (arith, h))
drop-zeros (suc k) (suc n) rest h =
    let e : n - k ≡ suc n - suc k = omega arith in
    drop-zeros k n rest (omega (arith, h)) ∙ ap (λ m. drop m rest) e

abbrev pub one_later : Option ℕ → Option ℕ
one_later none = none
one_later (some n) = some (suc n)

-- The place of the first NUL.
unfoldable pub nul_at : Bytes → Option ℕ
nul_at [] = none
nul_at (c ∷ s) = if c == 0 then some 0 else one_later (nul_at s)

-- A text with what stands behind it up to the first NUL.
abbrev pub text_to : Bytes → Bytes → Option ℕ → Outcome Bytes
text_to path behind none = undefined
text_to path behind (some n) = returned (path ++ take n behind)

c_string-nul_at : (s : Bytes) → c_string s ≡ text_to [] s (nul_at s)
unfolding c_string nul_at
c_string-nul_at [] = refl
c_string-nul_at (c ∷ s) = rw (c_string-nul_at s) (go (nul_at s))
  where
    go :
        (o : Option ℕ)
        → (if c == 0 then returned [] else (do t ← text_to [] s o; returned (c ∷ t)))
          ≡ text_to [] (c ∷ s) (if c == 0 then some 0 else one_later o)
    go none = ground arith
    go (some n) = ground arith

behind-nul_at :
    (path s : Bytes) → (do t ← c_string s; returned (path ++ t)) ≡ text_to path s (nul_at s)
behind-nul_at path s = rw (c_string-nul_at s) (go (nul_at s))
  where
    go : (o : Option ℕ) → (do t ← text_to [] s o; returned (path ++ t)) ≡ text_to path s o
    go none = refl
    go (some n) = refl

-- What `std::string` reads of an address that `{0}` and `strncpy` wrote.
abbrev pub reads_back : Bytes → Bytes → Outcome Bytes
reads_back leftover path =
    if ltb (length path) 14
    then returned path
    else if leb (length path) sun_path_size
    then text_to path (drop (length path - 14) leftover) (nul_at (drop (length path - 14) leftover))
    else undefined

read_any :
    (net : Inet) (path : Bytes)
    → InClass path_class path
    → (do require (leb (length path) sun_path_size); c_string (overwrite path (fresh net)))
      ≡ reads_back net.leftover path
read_any net path al = elim (Bool-cases (ltb (length path) 14)) [
  | inl short ↦
      rw
        (
          c_string-append path (drop (length path) (fresh net)) al,
          c_string-zeros 14 (length path) net.leftover (ground (arith, short)),
          append-nil,
        )
        (ground arith)
  | inr long ↦
      rw
        (
          c_string-append path (drop (length path) (fresh net)) al,
          drop-zeros 14 (length path) net.leftover (ground (arith, long)),
          behind-nul_at path (drop (length path - 14) net.leftover),
        )
        (ground arith)
]

-- A path in the characters of the path class that is not empty, read back from its address: one of
-- up to 13 characters comes back whole, because a zero follows it. One of 14 to 108 comes back with
-- what memory held behind the 16 bytes that `{0}` initialises, up to the first NUL there, and has no
-- defined result without one; a longer one has none either: strncpy writes past the array.
pub unix2string-unix_sockaddr :
    (net : Inet) (path : Bytes)
    → path ≢ []
    → InClass path_class path
    → (unix_sockaddr net (codes "unix://" ++ path) >>= unix2string) ≡ reads_back net.leftover path
unfolding unix2string
unix2string-unix_sockaddr net path ne al =
    let e = rw append-nil at (unix_sockaddr_lem net path [] ne al tt) in
    rw e (ground (arith, read_any net path al))

-- A Unix path whose characters before its first hyphen, of which there is at least one, are in
-- the path class is cut at that hyphen: the hyphen of the expression stands between two commas,
-- where it makes the range from comma to comma. Both addresses are made in the same memory.
pub unix_sockaddr_hyphen :
    (net : Inet) (path after : Bytes)
    → path ≢ []
    → InClass path_class path
    → unix_sockaddr net (codes "unix://" ++ (path ++ (codes "-" ++ after)))
      ≡ unix_sockaddr net (codes "unix://" ++ path)
unfolding in_class
unix_sockaddr_hyphen net path after ne al =
    unix_sockaddr_lem net path (codes "-" ++ after) ne al refl
    ∙ sym (rw append-nil at (unix_sockaddr_lem net path [] ne al tt))
