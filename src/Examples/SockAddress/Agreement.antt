-- ===== src/Examples/SockAddress/Agreement.antt =====
-- `SockAddress::filter` of examples/regex.cpp against `filter` of src/include/marko/sockaddr.hpp.
use marko_cpp.Prelude.Decimal.{to_string, strtol}
use marko_cpp.Prelude.{◌%◌, ap, Bytes, codes, [], ◌∷◌, eq_bytes_ne, ◌≡◌, ◌≢◌, ◌⊎◌, inl, inr, refl}
use marko_cpp.Outcome.{Outcome, returned, threw, undefined, invalid_argument, ◌>>=◌}
use marko_cpp.Regex.{regex_search, proto, ipport}
use marko_cpp.Sockaddr.{
  Inet, error_addr, inet_match, proto_match, filter, port_of, stoi, write_inet, ip_of,
}
use marko_cpp.Examples.SockAddress.{
  to_string, forget, inet_printed, matched_printed, filter_printed,
}

forget->>= :
    {A B C : Type 0} (o : Outcome A) (f : A → B) (g : B → C)
    → forget o ≡ forget ((o >>= λ a. returned (f a)) >>= λ b. returned (g b))
forget->>= (returned a) f g = refl
forget->>= (threw e) f g = refl
forget->>= undefined f g = refl

-- The two results on the matched text.
inet_printed-inet_match :
    (net : Inet) (whole host port : Bytes)
    → port ≢ codes "*"
    → inet_printed (whole ∷ host ∷ port ∷ [])
      ≡ ([], forget (inet_match net (whole ∷ host ∷ port ∷ [])))
unfolding inet_printed inet_match port_of
inet_printed-inet_match net whole host port ne = rw (eq_bytes_ne port (codes "*") ne) (
    ap (λ o. ([], o))
      (forget->>= (stoi port) (λ n. n % 65536) (λ n. write_inet net n (ip_of net host))))

module _ (net : Inet) (address w protocol body : Bytes)
    (found : regex_search address proto ≡ w ∷ protocol ∷ body ∷ [])
    (known : (protocol ≡ codes "udp") ⊎ (protocol ≡ codes "tcp")) where
  matched_printed-inet :
      matched_printed (w ∷ protocol ∷ body ∷ []) ≡ inet_printed (regex_search body ipport)
  unfolding matched_printed
  matched_printed-inet = elim known [ inl e ↦ rw e refl | inr e ↦ rw e refl ]

  proto_match-inet :
      proto_match net (w ∷ protocol ∷ body ∷ []) ≡ inet_match net (regex_search body ipport)
  unfolding proto_match
  proto_match-inet = elim known [ inl e ↦ rw e refl | inr e ↦ rw e refl ]

  -- On an address of the udp or tcp protocol whose body has a host and a port, and whose port is not
  -- `*`, the class prints nothing and ends as the library's parser does: normally, or with the same
  -- exception.
  pub filter_printed-filter :
      (whole host port : Bytes)
      → regex_search body ipport ≡ whole ∷ host ∷ port ∷ []
      → port ≢ codes "*"
      → filter_printed address ≡ ([], forget (filter net address))
  unfolding filter_printed filter
  filter_printed-filter whole host port split ne =
      rw (found, matched_printed-inet, proto_match-inet, split)
        (inet_printed-inet_match net whole host port ne)

  -- Where the body has no host and port, the class throws and the library gives AF_ERROR.
  pub filter_printed_throws :
      regex_search body ipport ≡ []
      → (filter_printed address ≡ (codes "error 0" ∷ [], threw invalid_argument))
        × (filter net address ≡ returned (error_addr net))
  unfolding filter_printed filter inet_match inet_printed stoi to_string strtol
  filter_printed_throws none_there =
      rw (found, matched_printed-inet, proto_match-inet, none_there) (refl, refl)
