-- ===== src/Sockaddr/Throws.antt =====
-- What the address parser of src/include/marko/sockaddr.hpp can throw.
use marko_cpp.Prelude.{Bytes, codes, [], ◌∷◌, eq_bytes, arith, Bool-cases, inl, inr}
use marko_cpp.Outcome.{Outcome, returned, threw, undefined, runtime_error, bad_function_call, ◌>>=◌}
use marko_cpp.Regex.{Smatch, regex_search, proto, ipport}
use marko_cpp.Sockaddr.{
  Inet, stoi, port_of, inet_match, proto_match, filter, inet_sockaddr, unix_sockaddr,
}

-- The outcome throws nothing but what std::stoi throws.
abbrev pub ThrowsParse : {A : Type 0} → Outcome A → Type 0
ThrowsParse (threw (runtime_error t)) = ⊥
ThrowsParse (threw bad_function_call) = ⊥
ThrowsParse _ = Unit {0}

map-ThrowsParse :
    {A B : Type 0} (o : Outcome A) (f : A → B)
    → ThrowsParse o
    → ThrowsParse (o >>= λ a. returned (f a))
map-ThrowsParse (returned a) f h = tt
map-ThrowsParse (threw (runtime_error t)) f h = h
map-ThrowsParse (threw bad_function_call) f h = h
map-ThrowsParse (threw _) f h = tt
map-ThrowsParse undefined f h = tt

stoi-ThrowsParse : (s : Bytes) → ThrowsParse (stoi s)
unfolding stoi
stoi-ThrowsParse s = ground arith

port_of-ThrowsParse : (s : Bytes) → ThrowsParse (port_of s)
unfolding port_of
port_of-ThrowsParse s = elim (Bool-cases (eq_bytes s (codes "*"))) [
  | inl e ↦ rw e tt
  | inr e ↦ rw e (map-ThrowsParse (stoi s) _ (stoi-ThrowsParse s))
]

inet_match-ThrowsParse : (net : Inet) (m : Smatch) → ThrowsParse (inet_match net m)
unfolding inet_match
inet_match-ThrowsParse net (w ∷ h ∷ p ∷ []) = map-ThrowsParse (port_of p) _ (port_of-ThrowsParse p)
inet_match-ThrowsParse net _ = tt

proto_match-ThrowsParse : (net : Inet) (m : Smatch) → ThrowsParse (proto_match net m)
unfolding proto_match
proto_match-ThrowsParse net (w ∷ protocol ∷ rest ∷ []) =
    ground (arith, inet_match-ThrowsParse net (regex_search rest ipport))
proto_match-ThrowsParse net _ = tt

pub unix_sockaddr-ThrowsParse :
    (net : Inet) (address : Bytes) → ThrowsParse (unix_sockaddr net address)
unfolding unix_sockaddr filter
unix_sockaddr-ThrowsParse net address =
    map-ThrowsParse (filter net address) _
      (proto_match-ThrowsParse net (regex_search address proto))

pub inet_sockaddr-ThrowsParse :
    (net : Inet) (address : Bytes) → ThrowsParse (inet_sockaddr net address)
unfolding inet_sockaddr filter
inet_sockaddr-ThrowsParse net address =
    map-ThrowsParse (filter net address) _
      (proto_match-ThrowsParse net (regex_search address proto))
