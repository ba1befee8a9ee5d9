-- ===== src/Transport.antt =====
-- What the class templates of src/include/marko/pub_sub.hpp and request_reply.hpp use of their
-- parameters SOCKET and SOCKADDR, and the two sockets that fill them.
pub mod Datagrams
use marko_cpp.Prelude.{ℕ, Bytes, ℤ}
use marko_cpp.Os.{Os}
use marko_cpp.Sockaddr.{InetAddr, UnixAddr}
use marko_cpp.Machine.{M}
use marko_cpp.SocketUdp
use marko_cpp.SocketUnix

pub record Transport (W : Type 0) : Type 1 where
  pub Addr : Type 0
  pub recv : ℕ → M W Bytes
  pub recvfrom : ℕ → M W (Bytes × Addr)
  pub sendto : Bytes → Addr → M W ℤ

-- The flags are left at their default, 0.
abbrev pub udp : (os : Os) → Transport os.World
udp os = record {
  Addr = InetAddr;
  recv = λ size. SocketUdp.recv os size 0;
  recvfrom = λ size. SocketUdp.recvfrom os size 0;
  sendto = λ msg addr. SocketUdp.sendto os msg addr 0;
}

abbrev pub unix : (os : Os) → Transport os.World
unix os = record {
  Addr = UnixAddr;
  recv = λ size. SocketUnix.recv os size 0;
  recvfrom = λ size. SocketUnix.recvfrom os size 0;
  sendto = λ msg addr. SocketUnix.sendto os msg addr 0;
}
