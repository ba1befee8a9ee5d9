-- ===== src/Examples/Ps/Programs.antt =====
-- What the publisher of examples/ps.cpp sends, and what its subscriber prints.
use marko_cpp.Prelude.{ℕ, zero, suc, Bytes, [], ◌∷◌, length, ℤ, pos, ◌≡◌, ◌≢◌, refl, arith}
use marko_cpp.Outcome.{returned}
use marko_cpp.Regex.{host_class}
use marko_cpp.Regex.Runs.{InClass}
use marko_cpp.Sockaddr.{InetAddr, af_inet, htons, ip_of}
use marko_cpp.Sockaddr.Inets.{inet_sockaddr_port}
use marko_cpp.Os.{Os, inet_at, sock_dgram}
use marko_cpp.Machine.{Sock}
use marko_cpp.Socket.{new_socket, make_socket, guard, close, socket_err}
use marko_cpp.SocketUdp.{constructs, destructs}
use marko_cpp.Transport.Datagrams.{udp_datagrams}
use marko_cpp.Transport.{udp}
use marko_cpp.Message.{Layout, pack}
use marko_cpp.PubSub.{register_addr}
use marko_cpp.PubSub.Delivery.{sends, publish-sends}
use marko_cpp.Examples.Ps.{DataT, port, max_loop, publish_all, publisher}

module _ (os : Os) {Real Int : Type 0} (printed : DataT Real Int → Bytes)
    (l : Layout (DataT Real Int)) (garbage : Bytes) (value : ℕ → DataT Real Int) where
  -- The world after `n` values from the `i`-th went to an address.
  unfoldable pub sent_values : ℤ → InetAddr → ℕ → ℕ → os.World → os.World
  sent_values fd to i zero w = w
  sent_values fd to i (suc n) w =
      sent_values fd to (suc i) n (os.send_to fd (pack l (value i)) 0 (inet_at to) w).1

  pub publish_all_lem :
      (to : InetAddr) (i n : ℕ) (s : Sock os.World)
      → publish_all os printed l garbage value (record { clientaddrs = to ∷ [] }) i n s
        ≡ (returned tt, record s { world = sent_values s.fd to i n s.world })
  unfolding publish_all sent_values sends
  publish_all_lem to i zero s = refl
  publish_all_lem to i (suc n) s =
      rw
        (publish-sends (udp os) (udp_datagrams os) (pack l (value i))
          (record { clientaddrs = to ∷ [] }) s)
        (publish_all_lem to (suc i) n (record s { world = _ }))

  -- For a host that is not empty, in the characters that the expression knows and with an ip of four
  -- bytes, and a system that gives a socket: the publisher sends its ten values, packed, in order and
  -- once each, to port 3000 of the host, closes its socket, and ends normally whatever becomes of
  -- the sends.
  pub publisher_sends :
      (host : Bytes) (fd : ℕ) (w w1 : os.World)
      → host ≢ []
      → InClass host_class host
      → length (ip_of os.net host) ≡ 4
      → os.socket af_inet sock_dgram 0 w ≡ (pos fd, w1)
      → let to : InetAddr = record {
        sin_family = af_inet;
        sin_port = htons 3000;
        sin_addr = ip_of os.net host;
      } in
        publisher os printed l garbage host value w ≡ (
          returned tt,
          record {
            fd = socket_err;
            world = os.close_fd (pos fd) (sent_values (pos fd) to 0 max_loop w1);
          },
        )
  unfolding publisher constructs destructs close make_socket guard new_socket register_addr
  publisher_sends host fd w w1 hne hal four opened =
      rw (inet_sockaddr_port os.net host port hne hal four (omega arith), opened)
        (rw (
          publish_all_lem
            (record { sin_family = af_inet; sin_port = htons port; sin_addr = ip_of os.net host }) 0
            max_loop (record { fd = pos fd; world = w1 })))
