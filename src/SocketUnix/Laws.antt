-- ===== src/SocketUnix/Laws.antt =====
-- How SocketUnix (src/include/marko/socket_uds.hpp) differs from SocketUDP when nothing arrives.
use marko_cpp.Prelude.{ℕ, Bytes, codes, [], ◌≡◌, refl, arith}
use marko_cpp.Outcome.{returned}
use marko_cpp.Sockaddr.{UnixAddr}
use marko_cpp.Os.{Os, unix_at}
use marko_cpp.Machine.{Sock}
use marko_cpp.Socket.Failure.{Fails, >>=-Fails, guard-Fails}
use marko_cpp.Socket.{guard, socket_timeout}
use marko_cpp.SocketUdp.{received}
use marko_cpp.SocketUnix.{sendto, recv, recvfrom}

-- A send neither throws nor closes the socket, also one that failed or was cut short.
pub sendto_returns :
    (os : Os) (msg : Bytes) (addr : UnixAddr) (flags : ℕ) (s : Sock os.World)
    → let r = os.send_to s.fd msg flags (unix_at addr) s.world in
      sendto os msg addr flags s ≡ (returned r.0, record s { world = r.1 })
unfolding sendto guard
sendto_returns os msg addr flags s = ground arith

-- Where the receive call gives -1, `recv` throws and closes the socket, and `recvfrom` of the
-- same class returns an empty message and keeps it.
pub recv_timeout :
    (os : Os) (msg_size flags : ℕ) (s : Sock os.World)
    → (os.recvfrom_un s.fd msg_size flags s.world).0.num ≡ socket_timeout
    → Fails (recv os msg_size flags s)
      × ((recvfrom os msg_size flags s).1.fd ≡ s.fd)
      × ((from : UnixAddr) × ((recvfrom os msg_size flags s).0 ≡ returned ([], from)))
unfolding recv recvfrom received
recv_timeout os msg_size flags s e =
    let r = os.recvfrom_un s.fd msg_size flags s.world in
    let msg : Bytes = codes "Unix recv: " in
    (
      >>=-Fails (guard os r.0.num msg (record s { world = r.1 })) _
          (guard-Fails os r.0.num msg (record s { world = r.1 }) (rw e)),
      refl,
      (r.0.from, rw e),
    )
