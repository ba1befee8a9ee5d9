-- ===== src/Sockaddr.antt =====
-- src/include/marko/sockaddr.hpp: socket addresses, and the addresses in text that name them.
-- An address is its bytes in memory: a `sockaddr_in` keeps port and ip in network byte order, so the
-- two bytes of the port are the high one and the low one on every machine. `inet_addr` and
-- `inet_ntop` are libc's and stand as the parameter `Inet`, with what the memory of a new union holds
-- where `{0}` does not initialise it.
pub mod Classes
pub mod Inets
pub mod Paths
pub mod Accepts
pub mod Throws
pub mod Reference
use marko_cpp.Prelude.{
  ℕ, ◌+◌, ◌*◌, ◌/◌, ◌%◌, Bytes, codes, List, [], ◌∷◌, ◌++◌, Option, none, some, Bool, true, false,
  ◌||◌, leb, ◌==◌, eq_bytes, if◌then◌else◌, take, drop, replicate, overwrite, length, ◌≡◌, refl,
}
use marko_cpp.Prelude.Decimal.{to_string, strtol}
use marko_cpp.Outcome.{
  Outcome, returned, threw, undefined, invalid_argument, out_of_range, ◌>>=◌, ◌>>◌, require,
}
use marko_cpp.Regex.{Smatch, regex_search, proto, ipport}

pub record Inet : Type 0 where
  -- the four bytes of the `in_addr_t`
  pub inet_addr : Bytes → Bytes
  -- the text of four bytes, for AF_INET
  pub inet_ntop : Bytes → Bytes
  -- the last 94 bytes of the union in `SockAddr ans{0}`, which initialises only its first member, the
  -- 16 bytes of `inet`; taken to be the same for every address
  pub leftover : Bytes
  pub length-leftover : length leftover ≡ 94

abbrev pub af_unix : ℕ
af_unix = 1

abbrev pub af_inet : ℕ
af_inet = 2

abbrev pub af_error : ℕ
af_error = 100

abbrev pub sun_path_size : ℕ
sun_path_size = 108

abbrev pub inaddr_any : Bytes
inaddr_any = 0 ∷ 0 ∷ 0 ∷ 0 ∷ []

abbrev pub inaddr_broadcast : Bytes
inaddr_broadcast = 255 ∷ 255 ∷ 255 ∷ 255 ∷ []

pub record InetAddr : Type 0 where
  pub sin_family : ℕ
  pub sin_port : Bytes
  pub sin_addr : Bytes

pub record UnixAddr : Type 0 where
  pub sun_family : ℕ
  pub sun_path : Bytes

-- The union: its members share the family, and the bytes behind it.
pub record SockAddr : Type 0 where
  pub sa_family : ℕ
  pub store : Bytes

unfoldable pub inet : SockAddr → InetAddr
inet u = record {
  sin_family = u.sa_family;
  sin_port = take 2 u.store;
  sin_addr = take 4 (drop 2 u.store);
}

unfoldable pub unix : SockAddr → UnixAddr
unix u = record { sun_family = u.sa_family; sun_path = u.store }

-- The memory of a `uint16_t` behind htons, and the number that ntohs reads there.
abbrev pub htons : ℕ → Bytes
htons n = (n / 256 % 256) ∷ (n % 256) ∷ []

abbrev pub ntohs : Bytes → ℕ
ntohs (hi ∷ lo ∷ []) = hi * 256 + lo
ntohs _ = 0

-- The bytes of `SockAddr ans{0}` behind the family.
abbrev pub fresh : Inet → Bytes
fresh net = replicate 14 0 ++ net.leftover

-- `SockAddr ans{0}` and then the family AF_ERROR.
abbrev pub error_addr : Inet → SockAddr
error_addr net = record { sa_family = af_error; store = fresh net }

-- The three stores into `ans.inet`, and the two into `ans.unix`.
abbrev pub write_inet : Inet → ℕ → Bytes → SockAddr
write_inet net port ip = record {
  sa_family = af_inet;
  store = overwrite (htons port ++ ip) (fresh net);
}

abbrev pub write_unix : Inet → Bytes → SockAddr
write_unix net path = record { sa_family = af_unix; store = overwrite path (fresh net) }

unfoldable pub stoi : Bytes → Outcome ℕ
stoi s = elim (strtol s) [
  | none ↦ threw invalid_argument
  | some n ↦ if leb n 2147483647 then returned n else threw out_of_range
]

-- `port` is a `uint16_t`.
unfoldable pub port_of : Bytes → Outcome ℕ
port_of s = if eq_bytes s (codes "*") then returned 0 else (do n ← stoi s; returned (n % 65536))

module _ (net : Inet) where
  unfoldable pub ip_of : Bytes → Bytes
  ip_of host =
      if eq_bytes host (codes "*")
      then inaddr_any
      else if eq_bytes host (codes "bc")
      then inaddr_broadcast
      else net.inet_addr host

  unfoldable pub inet_match : Smatch → Outcome SockAddr
  inet_match (whole ∷ host ∷ port ∷ []) = do
    n ← port_of port
    returned (write_inet net n (ip_of host))
  inet_match _ = returned (error_addr net)

  -- `strncpy` writes the whole path into the array `sun_path`.
  unfoldable pub proto_match : Smatch → Outcome SockAddr
  proto_match (whole ∷ protocol ∷ rest ∷ []) =
      if eq_bytes protocol (codes "unix")
      then (do require (leb (length rest) sun_path_size); returned (write_unix net rest))
      else if eq_bytes protocol (codes "tcp") || eq_bytes protocol (codes "udp")
      then inet_match (regex_search rest ipport)
      else returned (error_addr net)
  proto_match _ = returned (error_addr net)

  unfoldable pub filter : Bytes → Outcome SockAddr
  filter address = proto_match (regex_search address proto)

  unfoldable pub inet_sockaddr : Bytes → Outcome InetAddr
  unfolding inet
  inet_sockaddr path = do u ← filter path; returned (inet u)

  unfoldable pub unix_sockaddr : Bytes → Outcome UnixAddr
  unfolding unix
  unix_sockaddr path = do u ← filter path; returned (unix u)

  unfoldable pub inet2string : InetAddr → Bytes
  inet2string a =
      if a.sin_family == af_inet
      then net.inet_ntop a.sin_addr ++ (codes ":" ++ to_string (ntohs a.sin_port))
      else []

-- The text up to the NUL; without one in the array, `std::string` reads past its end.
unfoldable pub c_string : Bytes → Outcome Bytes
c_string [] = undefined
c_string (c ∷ s) = do
  let rest = c_string s
  if c == 0 then returned [] else (do t ← rest; returned (c ∷ t))

unfoldable pub unix2string : UnixAddr → Outcome Bytes
unix2string a = if a.sun_family == af_unix then c_string a.sun_path else returned []

-- `os << s` of the union.
unfoldable pub print : Inet → SockAddr → Outcome Bytes
unfolding inet2string inet
print net s =
    if s.sa_family == af_inet
    then returned (inet2string net (inet s))
    else if s.sa_family == af_unix
    then c_string s.store
    else if s.sa_family == af_error
    then returned (codes "ERROR")
    else returned (codes "UNKNOWN")

-- `os << s` of a `unixaddr_t`.
unfoldable pub print_unix : UnixAddr → Outcome Bytes
unfolding unix2string
print_unix a = do t ← unix2string a; returned (codes "path: " ++ t)
