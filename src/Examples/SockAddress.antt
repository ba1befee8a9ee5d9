-- ===== src/Examples/SockAddress.antt =====
-- examples/regex.cpp: the class SockAddress, an earlier form of `filter` of
-- src/include/marko/sockaddr.hpp that only prints.
pub mod Agreement
use marko_cpp.Prelude.{ℕ, Bytes, codes, List, [], ◌∷◌, ◌++◌, length, ◌||◌, eq_bytes, if◌then◌else◌}
use marko_cpp.Prelude.Decimal.{to_string}
use marko_cpp.Outcome.{Outcome, returned, threw, undefined}
use marko_cpp.Regex.{Smatch, regex_search, proto, ipport}
use marko_cpp.Sockaddr.{stoi}

-- The lines that a call printed, and how it ended.
abbrev pub Printed : Type 0
Printed = List Bytes × Outcome (Unit {0})

abbrev pub forget {ℓ} : {A : Type ℓ} → Outcome A → Outcome (Unit {0})
forget (returned a) = returned tt
forget (threw e) = threw e
forget undefined = undefined

-- A group that is not in the match is an empty text. The port is not used.
unfoldable pub inet_printed : Smatch → Printed
inet_printed (whole ∷ ip ∷ sport ∷ []) = ([], forget (stoi sport))
inet_printed mm = ((codes "error " ++ to_string (length mm)) ∷ [], forget (stoi []))

unfoldable pub matched_printed : Smatch → Printed
unfolding inet_printed
matched_printed [] = (codes "No matches!!" ∷ [], returned tt)
matched_printed (whole ∷ protocol ∷ body ∷ []) =
    if eq_bytes protocol (codes "unix")
    then ((codes "unix path: " ++ body) ∷ [], returned tt)
    else if eq_bytes protocol (codes "tcp") || eq_bytes protocol (codes "udp")
    then inet_printed (regex_search body ipport)
    else ([], returned tt)
matched_printed _ = ([], returned tt)

-- `SockAddress::filter`
unfoldable pub filter_printed : Bytes → Printed
unfolding matched_printed
filter_printed addr = matched_printed (regex_search addr proto)

-- A call behind another one, which may have thrown.
abbrev pub behind : Printed → Printed → Printed
behind (lines, returned done) (more, end) = (lines ++ more, end)
behind (lines, threw e) next = (lines, threw e)
behind (lines, undefined) next = (lines, undefined)

unfoldable pub main : Printed
unfolding filter_printed
main = behind (filter_printed (codes "udp://*:3000")) (
    behind (filter_printed (codes "tcp://1.2.3.4:5000"))
      (filter_printed (codes "unix:///bob/here")))
