-- ===== src/Host.antt =====
-- src/include/marko/sockaddr.hpp: get_hostname and get_host_ip.
pub mod Closes
use marko_cpp.Prelude.{
  arith, refl, pos, ◌≡◌, ℕ, length, inl, Bytes, codes, [], if◌then◌else◌, ℤ, is_neg, Option, none,
  some,
}
use marko_cpp.Outcome.{Outcome, returned, ◌>>=◌}
use marko_cpp.Regex.{in_class}
use marko_cpp.Regex.{host_class}
use marko_cpp.Regex.Runs.{InClass-all_in}
use marko_cpp.Sockaddr.Inets.{inet_sockaddr_fields}
use marko_cpp.Sockaddr.{htons, ip_of, InetAddr, inet_sockaddr, af_inet}
use marko_cpp.Os.{Os, sock_dgram, inet_at}

module _ (os : Os) where
  -- The name that getnameinfo writes for 127.0.0.1, and nothing where it fails.
  unfoldable pub get_hostname : (InetAddr → Option Bytes) → Outcome Bytes
  get_hostname getnameinfo = do
    addr ← inet_sockaddr os.net (codes "udp://127.0.0.1:9000")
    returned (elim (getnameinfo addr) [ none ↦ [] | some name ↦ name ])

  abbrev pub named : ℤ → os.World → Bytes × os.World
  named sockfd w =
      let r = os.name_of_socket sockfd w in
      if is_neg r.0.0 then ([], r.1) else (os.net.inet_ntop r.0.1.sin_addr, os.close_fd sockfd r.1)

  -- The socket is left open where getsockname fails.
  unfoldable pub get_host_ip : os.World → Outcome (Bytes × os.World)
  get_host_ip w =
      let r = os.socket af_inet sock_dgram 0 w in
      if is_neg r.0 then returned ([], r.1) else (do
        addr ← inet_sockaddr os.net (codes "udp://9.9.9.9:9999")
        returned (named r.0 (os.connect_to r.0 (inet_at addr) r.1).1))
