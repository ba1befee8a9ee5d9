-- ===== src/Transport/Datagrams.antt =====
-- What a socket that sends and receives datagrams promises to Publisher, Subscriber, Request and
-- Reply, and that SocketUDP (src/include/marko/socket_udp.hpp) and SocketUnix (socket_uds.hpp) keep it.
use marko_cpp.Prelude.{ℕ, Bytes, false, ℤ, is_neg, ◌≡◌, refl}
use marko_cpp.Outcome.{returned}
use marko_cpp.Os.{Os, Received, inet_at, unix_at}
use marko_cpp.Machine.{Sock}
use marko_cpp.Socket.{guard}
use marko_cpp.SocketUdp
use marko_cpp.SocketUdp.{received}
use marko_cpp.SocketUdp.Laws.{sendto_lem}
use marko_cpp.SocketUnix
use marko_cpp.SocketUnix.Laws.{sendto_returns}
use marko_cpp.Transport.{Transport, udp, unix}

pub record Datagrams {W : Type 0} (t : Transport W) : Type 0 where
  -- the system's calls on a descriptor
  pub send : ℤ → Bytes → t.Addr → W → ℤ × W
  pub take : ℤ → ℕ → W → Received t.Addr × W
  -- A send is one call, whose number is the result whatever it is.
  pub sendto_sends :
      (msg : Bytes) (addr : t.Addr) (s : Sock W)
      → let r = send s.fd msg addr s.world in
        t.sendto msg addr s ≡ (returned r.0, record s { world = r.1 })
  pub recvfrom_takes :
      (size : ℕ) (s : Sock W)
      → let r = take s.fd size s.world in
        t.recvfrom size s
        ≡ (returned (received size r.0.num r.0.written, r.0.from), record s { world = r.1 })
  -- `recv` may throw where the call fails.
  pub recv_takes :
      (size : ℕ) (s : Sock W)
      → let r = take s.fd size s.world in
        is_neg r.0.num ≡ false
        → t.recv size s ≡ (returned (received size r.0.num r.0.written), record s { world = r.1 })

module _ (os : Os) where
  pub udp_recvfrom :
      (size : ℕ) (s : Sock os.World)
      → let r = os.recvfrom_in s.fd size 0 s.world in
        SocketUdp.recvfrom os size 0 s
        ≡ (returned (received size r.0.num r.0.written, r.0.from), record s { world = r.1 })
  unfolding SocketUdp.recvfrom
  udp_recvfrom size s = refl

  pub udp_recv :
      (size : ℕ) (s : Sock os.World)
      → let r = os.recvfrom_in s.fd size 0 s.world in
        SocketUdp.recv os size 0 s
        ≡ (returned (received size r.0.num r.0.written), record s { world = r.1 })
  unfolding SocketUdp.recv
  udp_recv size s = refl

  pub unix_recvfrom :
      (size : ℕ) (s : Sock os.World)
      → let r = os.recvfrom_un s.fd size 0 s.world in
        SocketUnix.recvfrom os size 0 s
        ≡ (returned (received size r.0.num r.0.written, r.0.from), record s { world = r.1 })
  unfolding SocketUnix.recvfrom
  unix_recvfrom size s = refl

  pub unix_recv :
      (size : ℕ) (s : Sock os.World)
      → let r = os.recvfrom_un s.fd size 0 s.world in
        is_neg r.0.num ≡ false
        → SocketUnix.recv os size 0 s
          ≡ (returned (received size r.0.num r.0.written), record s { world = r.1 })
  unfolding SocketUnix.recv guard
  unix_recv size s h = rw h

  abbrev pub udp_datagrams : Datagrams (udp os)
  udp_datagrams = record {
    send = λ fd msg addr. os.send_to fd msg 0 (inet_at addr);
    take = λ fd size. os.recvfrom_in fd size 0;
    sendto_sends = λ msg addr s. sendto_lem os msg addr 0 s;
    recvfrom_takes = udp_recvfrom;
    recv_takes = λ size s h. udp_recv size s;
  }

  abbrev pub unix_datagrams : Datagrams (unix os)
  unix_datagrams = record {
    send = λ fd msg addr. os.send_to fd msg 0 (unix_at addr);
    take = λ fd size. os.recvfrom_un fd size 0;
    sendto_sends = λ msg addr s. sendto_returns os msg addr 0 s;
    recvfrom_takes = unix_recvfrom;
    recv_takes = unix_recv;
  }
