-- ===== src/SocketUdp.antt =====
-- src/include/marko/socket_udp.hpp: the class SocketUDP.
pub mod Laws
pub mod Life
use marko_cpp.Prelude.{
  ℕ, zero, suc, Bytes, codes, List, [], ◌∷◌, ◌++◌, Bool, true, false, ◌||◌, if◌then◌else◌, length,
  replicate, overwrite, ℤ, pos, negsuc, eq_int,
}
use marko_cpp.Outcome.{Outcome}
use marko_cpp.Sockaddr.{InetAddr, af_inet}
use marko_cpp.Os.{Os, sock_dgram, Received, inet_at}
use marko_cpp.Machine.{Sock, M, ◌>>=◌, ◌>>◌, ret, sys}
use marko_cpp.Socket.{socket_timeout, new_socket, make_socket, guard, close}

-- `message_t dst(msg_size)` after the receive call wrote into it: cleared on a timeout and on an
-- empty datagram, and of its full size otherwise.
unfoldable pub received : ℕ → ℤ → Bytes → Bytes
received msg_size num written =
    if eq_int num socket_timeout || eq_int num (pos 0)
    then []
    else overwrite written (replicate msg_size 0)

-- `msg.size() != num`, as the `int` that `guard` takes.
abbrev pub size_differs : Bytes → ℤ → ℤ
size_differs msg num = if eq_int num (pos (length msg)) then pos 0 else pos 1

module _ (os : Os) where
  unfoldable pub new_udp : os.World → Outcome (Unit {0}) × Sock os.World
  unfolding new_socket
  new_udp w = make_socket os af_inet sock_dgram 0 (new_socket os w)

  -- The constructor in the middle of a function that had no socket before.
  unfoldable pub constructs : M os.World (Unit {0})
  unfolding new_udp
  constructs s = new_udp s.world

  -- The destructor at the end of a function, however it ended.
  unfoldable pub destructs : {A : Type 0} → Outcome A × Sock os.World → Outcome A × Sock os.World
  destructs r = (r.0, (close os r.1).1)

  -- `recvfrom` with a place for the sender's address.
  unfoldable pub recvfrom : ℕ → ℕ → M os.World (Bytes × InetAddr)
  recvfrom msg_size flags = do
    r ← sys (λ fd. os.recvfrom_in fd msg_size flags)
    ret (received msg_size r.num r.written, r.from)

  -- `recv` calls `recvfrom` with NULL.
  unfoldable pub recv : ℕ → ℕ → M os.World Bytes
  recv msg_size flags = do
    r ← sys (λ fd. os.recvfrom_in fd msg_size flags)
    ret (received msg_size r.num r.written)

  unfoldable pub sendto : Bytes → InetAddr → ℕ → M os.World ℤ
  sendto msg addr flags = do
    num ← sys (λ fd. os.send_to fd msg flags (inet_at addr))
    guard os (size_differs msg num) (codes "sendto() sent incorrect number of bytes")
    ret num
