-- ===== src/SocketBc.antt =====
-- src/include/marko/socket_bc.hpp: the class SocketBC, a UDP socket that sends to everyone.
use marko_cpp.Prelude.{ℕ, ◌<◌, Bytes, codes, ◌++◌, ℤ, pos, ◌≡◌, refl}
use marko_cpp.Prelude.Decimal.{to_string}
use marko_cpp.Outcome.{Outcome, returned}
use marko_cpp.Regex.{in_class}
use marko_cpp.Sockaddr.{Inet, InetAddr, af_inet, inaddr_broadcast, htons, ip_of, inet_sockaddr}
use marko_cpp.Sockaddr.Inets.{inet_sockaddr_port}
use marko_cpp.Os.{Os, sol_socket, ipproto_ip, so_broadcast, ip_multicast_loop}
use marko_cpp.Machine.{continue-continue, Sock, M, continue, ◌>>◌, lift}
use marko_cpp.Socket.{setsockopt}
use marko_cpp.SocketUdp.{new_udp, sendto}

module _ (os : Os) where
  -- The constructor; its value is `bc_addr`.
  unfoldable pub new_bc : ℕ → os.World → Outcome InetAddr × Sock os.World
  new_bc port w = continue (new_udp os w) (λ _. do
    setsockopt os sol_socket so_broadcast (pos 1)
    setsockopt os ipproto_ip ip_multicast_loop (pos 1)
    lift (inet_sockaddr os.net (codes "udp://bc:" ++ to_string port)))

  unfoldable pub cast : InetAddr → Bytes → M os.World ℤ
  cast bc_addr msg = sendto os msg bc_addr 0

-- For every port the broadcast address parses: 255.255.255.255 at that port.
pub bc_address :
    (net : Inet) (port : ℕ)
    → port < 65536
    → inet_sockaddr net (codes "udp://bc:" ++ to_string port)
      ≡ returned
          (record { sin_family = af_inet; sin_port = htons port; sin_addr = inaddr_broadcast })
unfolding ip_of in_class
bc_address net port h = inet_sockaddr_port net (codes "bc") port (λ e. cc) (refl, (refl, tt)) refl h

abbrev pub broadcast_addr : ℕ → InetAddr
broadcast_addr port = record {
  sin_family = af_inet;
  sin_port = htons port;
  sin_addr = inaddr_broadcast;
}

-- A cast on a socket that was made for a port below 2^16 is a send of the whole message to
-- 255.255.255.255 at that port, behind the system calls of the constructor.
pub cast-new_bc :
    (os : Os) (port : ℕ) (msg : Bytes) (w : os.World)
    → port < 65536
    → continue (new_bc os port w) (λ a. cast os a msg)
      ≡ continue (new_udp os w) (λ _. do
        setsockopt os sol_socket so_broadcast (pos 1)
        setsockopt os ipproto_ip ip_multicast_loop (pos 1)
        sendto os msg (broadcast_addr port) 0)
unfolding new_bc cast
cast-new_bc os port msg w h = simp (continue-continue, bc_address os.net port h)
