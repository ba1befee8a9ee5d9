-- ===== src/Sockaddr/Inets.antt =====
-- `inet_sockaddr` and `inet2string` of src/include/marko/sockaddr.hpp on addresses of the form
-- `udp://host:port`.
use marko_cpp.Prelude.{
  ◌∙◌, ◌*◌, ◌+◌, ◌<◌, ◌<◌, true, ℕ, ◌%◌, Bytes, codes, [], ◌∷◌, ◌++◌, leb, if◌then◌else◌, take,
  length, ◌≡◌, ◌≢◌, refl, ap, ◌⊎◌, inl, inr, arith, All, All-append, All-mono, append-ne-nil,
  take-append,
}
use marko_cpp.Prelude.Decimal.{
  value-to_string, IsDigit-to_string, to_string-ne-nil, to_string, IsDigit, value, strtol_digits,
}
use marko_cpp.Outcome.{Outcome, returned, threw, undefined, out_of_range, ◌>>=◌}
use marko_cpp.Regex.{path_class, host_class, in_class}
use marko_cpp.Regex.Runs.{InClass, regex_search-proto_whole, regex_search-ipport_whole}
use marko_cpp.Sockaddr.Classes.{host-path, digit-path, digit-port}
use marko_cpp.Sockaddr.{
  InetAddr, inet2string, Inet, af_inet, htons, inet, stoi, port_of, ip_of, write_inet, inet_match,
  proto_match, filter, inet_sockaddr,
}

stoi_digits :
    (s : Bytes)
    → s ≢ []
    → All IsDigit s
    → stoi s ≡ (if leb (value 0 s) 2147483647 then returned (value 0 s) else threw out_of_range)
unfolding stoi
stoi_digits s ne h = rw (stoi, strtol_digits s ne h)

-- Digits that fit an `int` name their value, cut to sixteen bits; others make `stoi` throw.
pub port_of_digits :
    (s : Bytes)
    → s ≢ []
    → All IsDigit s
    → port_of s
      ≡ (if leb (value 0 s) 2147483647 then returned (value 0 s % 65536) else threw out_of_range)
unfolding port_of
port_of_digits [] ne h = absurd (ne refl)
port_of_digits (c ∷ s) ne h = ground (arith, stoi_digits (c ∷ s) ne h)

module _ (net : Inet) (host port : Bytes) (hne : host ≢ []) (hal : InClass host_class host)
    (pne : port ≢ []) (pal : All IsDigit port) where
  pub body_path : InClass path_class (host ++ (codes ":" ++ port))
  unfolding in_class
  body_path =
      All-append _ host (codes ":" ++ port) (All-mono host-path host hal)
        (refl, All-mono digit-path port pal)

  filter_lem :
      (w : Bytes)
      → (w ≡ codes "udp") ⊎ (w ≡ codes "tcp")
      → filter net (w ++ (codes "://" ++ (host ++ (codes ":" ++ port))))
        ≡ inet_match net ((host ++ (codes ":" ++ port)) ∷ host ∷ port ∷ [])
  unfolding filter proto_match
  filter_lem w (inl e) = rw (
    regex_search-proto_whole w (host ++ (codes ":" ++ port)) (inl e) (append-ne-nil host _ hne)
        body_path,
    e,
    regex_search-ipport_whole host port hne hal pne (All-mono digit-port port pal),
  )
  filter_lem w (inr e) = rw (
    regex_search-proto_whole w (host ++ (codes ":" ++ port)) (inr (inl e))
        (append-ne-nil host _ hne) body_path,
    e,
    regex_search-ipport_whole host port hne hal pne (All-mono digit-port port pal),
  )

take_four : (ip rest : Bytes) → length ip ≡ 4 → take 4 (ip ++ rest) ≡ ip
take_four ip rest four = rw (← four) (take-append ip rest)

inet-write_inet :
    (net : Inet) (ip : Bytes)
    → length ip ≡ 4
    → (o : Outcome ℕ)
    → ((o >>= λ n. returned (write_inet net n ip)) >>= λ u. returned (inet u))
      ≡ (o >>= λ n. returned (record { sin_family = af_inet; sin_port = htons n; sin_addr = ip }))
unfolding inet
inet-write_inet net ip four (returned n) =
    ap (λ t. returned (record { sin_family = af_inet; sin_port = htons n; sin_addr = t }))
      (take_four ip _ four)
inet-write_inet net ip four (threw e) = refl
inet-write_inet net ip four undefined = refl

-- The fields that an address of the udp or tcp form is given.
pub inet_sockaddr_lem :
    (net : Inet) (w host port : Bytes)
    → (w ≡ codes "udp") ⊎ (w ≡ codes "tcp")
    → host ≢ []
    → InClass host_class host
    → port ≢ []
    → All IsDigit port
    → length (ip_of net host) ≡ 4
    → inet_sockaddr net (w ++ (codes "://" ++ (host ++ (codes ":" ++ port)))) ≡ (do
      n ← port_of port
      returned (record { sin_family = af_inet; sin_port = htons n; sin_addr = ip_of net host }))
unfolding inet_sockaddr inet_match
inet_sockaddr_lem net w host port e hne hal pne pal four =
    rw (filter_lem net host port hne hal pne pal w e)
      (inet-write_inet net (ip_of net host) four (port_of port))

-- For a host and a port number that are not empty and in the characters that the expressions
-- know, the host with an ip of four bytes, `udp://host:port` and `tcp://host:port` both give the
-- family AF_INET, the ip of the host (`*` and `bc` being INADDR_ANY and INADDR_BROADCAST), and
-- the port modulo 2^16 in network order; a port above the range of `int` makes the parser throw
-- std::out_of_range.
pub inet_sockaddr_fields :
    (net : Inet) (w host port : Bytes)
    → (w ≡ codes "udp") ⊎ (w ≡ codes "tcp")
    → host ≢ []
    → InClass host_class host
    → port ≢ []
    → All IsDigit port
    → length (ip_of net host) ≡ 4
    → inet_sockaddr net (w ++ (codes "://" ++ (host ++ (codes ":" ++ port)))) ≡ (
        if leb (value 0 port) 2147483647
        then returned (record {
          sin_family = af_inet;
          sin_port = htons (value 0 port % 65536);
          sin_addr = ip_of net host;
        })
        else threw out_of_range)
inet_sockaddr_fields net w host port e hne hal pne pal four =
    rw (inet_sockaddr_lem net w host port e hne hal pne pal four, port_of_digits port pne pal)
      (ground arith)

-- A port number below 2^16 in decimal is the port of the address.
pub inet_sockaddr_port :
    (net : Inet) (host : Bytes) (port : ℕ)
    → host ≢ []
    → InClass host_class host
    → length (ip_of net host) ≡ 4
    → port < 65536
    → inet_sockaddr net (codes "udp://" ++ (host ++ (codes ":" ++ to_string port)))
      ≡ returned (record { sin_family = af_inet; sin_port = htons port; sin_addr = ip_of net host })
inet_sockaddr_port net host port hne hal four h =
    inet_sockaddr_fields net (codes "udp") host (to_string port) (inl refl) hne hal
      (to_string-ne-nil port) (IsDigit-to_string port) four
    ∙ rw (value-to_string port) (ground arith)

abbrev pub Dotted : ℕ → Type 0
Dotted c = IsDigit c ⊎ (c ≡ b'.')

Dotted-host : (c : ℕ) → Dotted c → in_class host_class c ≡ true
unfolding in_class
Dotted-host c h = ground arith

ip_of-Dotted : (net : Inet) (s : Bytes) → s ≢ [] → All Dotted s → ip_of net s ≡ net.inet_addr s
unfolding ip_of
ip_of-Dotted net [] ne h = absurd (ne refl)
ip_of-Dotted net (c ∷ s) ne h = ground arith

-- An AF_INET address with two bytes of port and four bytes of ip that is printed and read again
-- is the same address. What is asked of libc is that inet_ntop prints digits and dots, and that
-- inet_addr reads that print.
pub inet_sockaddr-inet2string :
    (net : Inet) (hi lo : ℕ) (ip : Bytes)
    → hi < 256
    → lo < 256
    → length ip ≡ 4
    → net.inet_ntop ip ≢ []
    → All Dotted (net.inet_ntop ip)
    → net.inet_addr (net.inet_ntop ip) ≡ ip
    → let a : InetAddr = record { sin_family = af_inet; sin_port = hi ∷ lo ∷ []; sin_addr = ip } in
      inet_sockaddr net (codes "udp://" ++ inet2string net a) ≡ returned a
unfolding inet2string
inet_sockaddr-inet2string net hi lo ip hhi hlo four ne dotted back =
    let n : ℕ = hi * 256 + lo in
    let host : Bytes = net.inet_ntop ip in
    let e : ip_of net host ≡ ip = ip_of-Dotted net host ne dotted ∙ back in
    rw
      (
        inet_sockaddr_fields net (codes "udp") host (to_string n) (inl refl) ne
            (All-mono Dotted-host host dotted) (to_string-ne-nil n) (IsDigit-to_string n)
            (rw e four),
        value-to_string n,
        e,
      )
      (ground arith)
