-- ===== src/Timeouts.antt =====
-- A receive call that times out inside the loops of Subscriber (src/include/marko/pub_sub.hpp) and
-- Reply (request_reply.hpp), over SocketUDP and over SocketUnix.
use marko_cpp.Prelude.{List, Option, ℕ, suc, Bool, true, ◌≡◌, refl}
use marko_cpp.Os.{Os}
use marko_cpp.Machine.{Sock}
use marko_cpp.Socket.{socket_timeout}
use marko_cpp.Socket.Failure.{Fails, >>=-Fails}
use marko_cpp.SocketUdp
use marko_cpp.SocketUdp.{received}
use marko_cpp.SocketUnix
use marko_cpp.SocketUnix.Laws.{recv_timeout}
use marko_cpp.Transport.{Transport, udp, unix}
use marko_cpp.Transport.Datagrams.{Datagrams, udp_datagrams, unix_datagrams}
use marko_cpp.Loop.{loop}
use marko_cpp.PubSub
use marko_cpp.PubSub.{SubCallback, Subscriber, subscriber_loop}
use marko_cpp.RequestReply
use marko_cpp.RequestReply.{ReplyCallback, Reply, reply_loop, answer}

module _ (os : Os) (is_set : os.World → Bool) (fuel : ℕ) (s : Sock os.World)
    (set : is_set s.world ≡ true) where
  abbrev pub after_in : ℕ → Sock os.World
  after_in size = record s { world = (os.recvfrom_in s.fd size 0 s.world).1 }

  abbrev pub after_un : ℕ → Sock os.World
  after_un size = record s { world = (os.recvfrom_un s.fd size 0 s.world).1 }

  subscriber_unix :
      (sub : Subscriber os.World)
      → (os.recvfrom_un s.fd sub.data_size 0 s.world).0.num ≡ socket_timeout
      → Fails (subscriber_loop (unix os) is_set sub (suc fuel) s)
  unfolding subscriber_loop loop PubSub.once
  subscriber_unix sub e = rw set (
      >>=-Fails _ _ (
        >>=-Fails (SocketUnix.recv os sub.data_size 0 s) _ (recv_timeout os sub.data_size 0 s e).0))

  subscriber_udp :
      (sub : Subscriber os.World)
      → (os.recvfrom_in s.fd sub.data_size 0 s.world).0.num ≡ socket_timeout
      → subscriber_loop (udp os) is_set sub (suc fuel) s
        ≡ subscriber_loop (udp os) is_set sub fuel (after_in sub.data_size)
  unfolding subscriber_loop loop PubSub.once SocketUdp.recv received
  subscriber_udp sub e = rw (set, e) refl

  -- Reply receives by `recvfrom`, which neither socket guards.
  reply_goes_on :
      (t : Transport os.World) (d : Datagrams t) (rep : Reply os.World)
      → (d.take s.fd rep.msg_size s.world).0.num ≡ socket_timeout
      → reply_loop t is_set rep (suc fuel) s
        ≡ reply_loop t is_set rep fuel (record s { world = (d.take s.fd rep.msg_size s.world).1 })
  unfolding reply_loop loop RequestReply.once received answer
  reply_goes_on t d rep e = rw (set, d.recvfrom_takes rep.msg_size s, e) refl

  -- While the event is set, a receive call that times out ends the loop of a subscriber over Unix
  -- sockets, by std::runtime_error and with the socket closed, whatever its callbacks; the loop of a
  -- subscriber over UDP goes on with the next round, and so does the loop of a replier, over either.
  pub loops-timeout :
      (size : ℕ) (callbacks : List (SubCallback os.World))
      (callback : Option (ReplyCallback os.World))
      → (os.recvfrom_in s.fd size 0 s.world).0.num ≡ socket_timeout
      → (os.recvfrom_un s.fd size 0 s.world).0.num ≡ socket_timeout
      → let sub : Subscriber os.World = record { callbacks = callbacks; data_size = size } in
        let rep : Reply os.World = record { callback = callback; msg_size = size } in
        Fails (subscriber_loop (unix os) is_set sub (suc fuel) s)
        × (subscriber_loop (udp os) is_set sub (suc fuel) s
            ≡ subscriber_loop (udp os) is_set sub fuel (after_in size))
        × (reply_loop (udp os) is_set rep (suc fuel) s
            ≡ reply_loop (udp os) is_set rep fuel (after_in size))
        × (reply_loop (unix os) is_set rep (suc fuel) s
            ≡ reply_loop (unix os) is_set rep fuel (after_un size))
  loops-timeout size callbacks callback timed_in timed_un =
      let sub : Subscriber os.World = record { callbacks = callbacks; data_size = size } in
      let rep : Reply os.World = record { callback = callback; msg_size = size } in
      (
        subscriber_unix sub timed_un,
        subscriber_udp sub timed_in,
        reply_goes_on (udp os) (udp_datagrams os) rep timed_in,
        reply_goes_on (unix os) (unix_datagrams os) rep timed_un,
      )
