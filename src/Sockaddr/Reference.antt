-- ===== src/Sockaddr/Reference.antt =====
-- `filter` of src/include/marko/sockaddr.hpp against a parser without regular expressions.
use marko_cpp.Prelude.{
  subst, Bytes, codes, [], ◌∷◌, Option, none, some, length, leb, eq_bytes, if◌then◌else◌, ◌≡◌, refl,
  ◌∙◌, inl, inr, ap,
}
use marko_cpp.Outcome.{Outcome, returned, ◌>>=◌, ◌>>◌, require}
use marko_cpp.Regex.{regex_search, proto, ipport}
use marko_cpp.Regex.Spec.{OneOf}
use marko_cpp.Regex.Search.{regex_search_sound}
use marko_cpp.Regex.Scan.{
  first_at, address_at, host_port_at, address_found, host_port_found, groups,
}
use marko_cpp.Regex.Scan.Agrees.{regex_search-first_at}
use marko_cpp.Sockaddr.{
  Inet, SockAddr, error_addr, sun_path_size, write_unix, write_inet, port_of, ip_of, inet_match,
  proto_match, filter,
}

module _ (net : Inet) where
  -- The first host with a port, of a body.
  unfoldable pub parse_inet : Bytes → Outcome SockAddr
  parse_inet body = elim (first_at host_port_at body) [
    | none ↦ returned (error_addr net)
    | some (host, port) ↦ (do n ← port_of port; returned (write_inet net n (ip_of net host)))
  ]

  -- The first protocol word with a body.
  unfoldable pub parse : Bytes → Outcome SockAddr
  unfolding parse_inet
  parse address = elim (first_at address_at address) [
    | none ↦ returned (error_addr net)
    | some (word, body) ↦
        if eq_bytes word (codes "unix")
        then (do require (leb (length body) sun_path_size); returned (write_unix net body))
        else parse_inet body
  ]

  inet_match-parse_inet :
      (body : Bytes) → inet_match net (regex_search body ipport) ≡ parse_inet body
  unfolding parse_inet
  inet_match-parse_inet body =
      ap (inet_match net) (regex_search-first_at body).1 ∙ go (first_at host_port_at body)
    where
      go :
          (o : Option (Bytes × Bytes))
          → inet_match net (groups host_port_found o) ≡ elim o [
            | none ↦ returned (error_addr net)
            | some (host, port) ↦ (do
              n ← port_of port
              returned (write_inet net n (ip_of net host)))
          ]
      go none = unfold inet_match in refl
      go (some (host, port)) = unfold inet_match in refl

  known_word :
      (u word body : Bytes)
      → OneOf word (codes "udp" ∷ codes "tcp" ∷ codes "unix" ∷ [])
      → proto_match net (u ∷ word ∷ body ∷ []) ≡ (
          if eq_bytes word (codes "unix")
          then (do require (leb (length body) sun_path_size); returned (write_unix net body))
          else parse_inet body)
  unfolding proto_match
  known_word u word body (inl e) = rw e (inet_match-parse_inet body)
  known_word u word body (inr (inl e)) = rw e (inet_match-parse_inet body)
  known_word u word body (inr (inr (inl e))) = rw e refl
  known_word u word body (inr (inr (inr h))) = absurd h

  found_word :
      (address : Bytes) (o : Option (Bytes × Bytes))
      → regex_search address proto ≡ groups address_found o
      → proto_match net (groups address_found o) ≡ elim o [
        | none ↦ returned (error_addr net)
        | some (word, body) ↦
            if eq_bytes word (codes "unix")
            then (do require (leb (length body) sun_path_size); returned (write_unix net body))
            else parse_inet body
      ]
  found_word address none found = unfold proto_match in refl
  found_word address (some (word, body)) found =
      let (before, after, split, (w, v, hs, one, eu, eg, rest)) =
        regex_search_sound address proto _ (word ∷ body ∷ []) found in
      let same : w ≡ word = cc eg in
      known_word _ word body
        (subst (λ x. OneOf x (codes "udp" ∷ codes "tcp" ∷ codes "unix" ∷ [])) same one)

  -- On every text `filter` ends as the parser without regular expressions does: with the same union,
  -- the same exception or no defined result.
  pub filter-parse : (address : Bytes) → filter net address ≡ parse address
  unfolding filter parse
  filter-parse address =
      let found = (regex_search-first_at address).0 in
      ap (proto_match net) found ∙ found_word address (first_at address_at address) found
