-- ===== src/Socket/Addresses.antt =====
-- What `bind` and `connect` of Socket (src/include/marko/socket.hpp) do with an address of the udp or
-- tcp form.
use marko_cpp.Prelude.{
  ◌%◌, ◌≤◌, Bytes, codes, [], ◌++◌, append-ne-nil, length, ◌≡◌, ◌≢◌, ◌⊎◌, inl, inr, refl, All,
  leb_iff,
}
use marko_cpp.Prelude.Decimal.{IsDigit, value}
use marko_cpp.Regex.{host_class}
use marko_cpp.Regex.Runs.{InClass, regex_search-proto_whole}
use marko_cpp.Sockaddr.{InetAddr, af_inet, htons, ip_of}
use marko_cpp.Sockaddr.Inets.{body_path, inet_sockaddr_fields}
use marko_cpp.Os.{Os, inet_at}
use marko_cpp.Machine.{Sock}
use marko_cpp.Socket.{guarded, set_inet, set_matched, bind, connect}

module _ (os : Os) (w host port : Bytes) (known : (w ≡ codes "udp") ⊎ (w ≡ codes "tcp"))
    (hne : host ≢ []) (hal : InClass host_class host) (pne : port ≢ []) (pal : All IsDigit port)
    (four : length (ip_of os.net host) ≡ 4) (fits : value 0 port ≤ 2147483647) where
  -- The address that `w://host:port` names.
  abbrev pub named_addr : InetAddr
  named_addr = record {
    sin_family = af_inet;
    sin_port = htons (value 0 port % 65536);
    sin_addr = ip_of os.net host;
  }

  -- `bind` and `connect` to `udp://host:port` or `tcp://host:port`, host and port being in the
  -- characters that the expressions know, the ip of four bytes and the port in the range of `int`,
  -- make one call of the system, on the address named, and guard its result.
  pub bind-connect_inet :
      (s : Sock os.World)
      → (bind os (w ++ (codes "://" ++ (host ++ (codes ":" ++ port)))) s
          ≡ guarded os
              (λ fd. os.bind_to fd (inet_at named_addr))
              (codes "Socket::bind() failed: ")
              s)
        × (connect os (w ++ (codes "://" ++ (host ++ (codes ":" ++ port)))) s
            ≡ guarded os
                (λ fd. os.connect_to fd (inet_at named_addr))
                (codes "Socket::bind() failed: ")
                s)
  unfolding bind connect set_matched set_inet
  bind-connect_inet s =
      let body : Bytes = host ++ (codes ":" ++ port) in
      let parsed =
        rw ((leb_iff (value 0 port) 2147483647).1 fits) at
          (inet_sockaddr_fields os.net w host port known hne hal pne pal four) in
      let ne : body ≢ [] = append-ne-nil host (codes ":" ++ port) hne in
      let path = body_path os.net host port hne hal pne pal in
      elim known [
        | inl e ↦ rw (regex_search-proto_whole w body (inl e) ne path, parsed, e) (refl, refl)
        | inr e ↦ rw (regex_search-proto_whole w body (inr (inl e)) ne path, parsed, e) (refl, refl)
      ]
