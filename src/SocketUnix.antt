-- ===== src/SocketUnix.antt =====
-- src/include/marko/socket_uds.hpp: the class SocketUnix.
pub mod Laws
pub mod Life
use marko_cpp.Prelude.{
  ℕ, zero, suc, Bytes, codes, List, [], ◌∷◌, ◌++◌, Bool, true, false, ◌||◌, if◌then◌else◌, length,
  replicate, overwrite, ℤ, pos, negsuc, eq_int, Option, none, some,
}
use marko_cpp.Outcome.{Outcome}
use marko_cpp.Sockaddr.{UnixAddr, af_unix}
use marko_cpp.Os.{Os, sock_dgram, Received, unix_at}
use marko_cpp.Machine.{Sock, M, ◌>>=◌, ◌>>◌, ret, sys}
use marko_cpp.Socket.{socket_timeout, new_socket, make_socket, guard}
use marko_cpp.SocketUdp.{received, size_differs}

module _ (os : Os) where
  unfoldable pub new_unix : os.World → Outcome (Unit {0}) × Sock os.World
  unfolding new_socket
  new_unix w = make_socket os af_unix sock_dgram 0 (new_socket os w)

  unfoldable pub recvfrom : ℕ → ℕ → M os.World (Bytes × UnixAddr)
  recvfrom msg_size flags = do
    r ← sys (λ fd. os.recvfrom_un fd msg_size flags)
    ret (received msg_size r.num r.written, r.from)

  -- Without a place for the sender's address nothing is received.
  unfoldable pub recvfrom_null : ℕ → ℕ → M os.World Bytes
  recvfrom_null msg_size flags = ret []

  -- `recv` guards the number of the call before it looks for a timeout.
  unfoldable pub recv : ℕ → ℕ → M os.World Bytes
  recv msg_size flags = do
    r ← sys (λ fd. os.recvfrom_un fd msg_size flags)
    guard os r.num (codes "Unix recv: ")
    ret (received msg_size r.num r.written)

  unfoldable pub sendto : Bytes → UnixAddr → ℕ → M os.World ℤ
  sendto msg addr flags = do
    num ← sys (λ fd. os.send_to fd msg flags (unix_at addr))
    guard os (size_differs msg num) (codes "sendto() sent incorrect number of bytes")
    ret num
