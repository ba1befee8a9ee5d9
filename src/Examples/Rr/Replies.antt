-- ===== src/Examples/Rr/Replies.antt =====
-- What the requester of examples/rr.cpp gets back.
use marko_cpp.Prelude.{◌<◌, Bytes, codes, ◌++◌, length, ℤ, ◌≡◌, arith}
use marko_cpp.Outcome.{Outcome, returned}
use marko_cpp.Sockaddr.{InetAddr}
use marko_cpp.Os.{Os, inet_at}
use marko_cpp.Machine.{Sock}
use marko_cpp.SocketUdp.{received}
use marko_cpp.SocketUdp
use marko_cpp.SocketUdp.Laws.{sendto_lem}
use marko_cpp.Transport.{udp}
use marko_cpp.Message.{Layout, pack}
use marko_cpp.Message.Received.{length-pack, received_packed}
use marko_cpp.Message.Memory.{unpack-pack}
use marko_cpp.RequestReply.{
  once, answer, call_callback, request, new_request, new_reply, register_cb,
}
use marko_cpp.RequestReply.Exchange.{arrives}
use marko_cpp.Examples.Rr.{RequestT, ResponseT, cb, ask, replier}

module _ (os : Os) {Real Int : Type 0} (shown : RequestT Real Int → Bytes) (digits : Int → Bytes)
    (lq : Layout (RequestT Real Int)) (lr : Layout (ResponseT Int)) (garbage_q garbage_r : Bytes)
    (full_q : length garbage_q ≡ lq.size) (full_r : length garbage_r ≡ lr.size)
    (some_q : 0 < lq.size) (some_r : 0 < lr.size) (m : RequestT Real Int) (server client : InetAddr)
    (c s : ℤ) (w w2 w3 : os.World) where
  -- The world after the requester's send, and the replier's round in it.
  abbrev pub asked : os.World
  asked = (os.send_to c (pack lq m) 0 (inet_at server) w).1

  abbrev pub reply_round : Outcome (Unit {0}) × Sock os.World
  reply_round =
      once (udp os) (replier os shown digits lq lr garbage_q garbage_r)
        (record { fd = s; world = asked })

  -- The response that belongs to the request, and the world after the replier sent it.
  abbrev pub response : ResponseT Int
  response = record { a = m.b }

  abbrev pub replied : os.World
  replied =
      (os.send_to s (pack lr response) 0 (inet_at client)
        (os.print_line (codes "cb: " ++ shown m) w2)).1

  reply_round_lem :
      os.recvfrom_in s lq.size 0 asked ≡ (arrives (pack lq m) client, w2)
      → reply_round ≡ (returned tt, record { fd = s; world = replied })
  unfolding once SocketUdp.recvfrom answer call_callback replier register_cb new_reply cb
  reply_round_lem to_server =
      rw (to_server, received_packed lq m some_q, unpack-pack lq garbage_q m full_q)
        (ground (
          arith,
          length-pack lq m,
          sendto_lem os (pack lr response) client 0
              (record { fd = s; world = os.print_line (codes "cb: " ++ shown m) w2 }),
        ))

  -- A round of the requester against a round of the replier, for messages of at least a byte and
  -- results that have memory of their size. The network gives the replier the packed request; the
  -- requester's receive call waits for the replier's round and then gets its datagram. The
  -- response that is unpacked and printed carries the number of the request.
  pub ask-replier :
      os.recvfrom_in s lq.size 0 asked ≡ (arrives (pack lq m) client, w2)
      → os.recvfrom_in c lr.size 0 asked ≡ os.recvfrom_in c lr.size 0 reply_round.1.world
      → os.recvfrom_in c lr.size 0 replied ≡ (arrives (pack lr response) server, w3)
      → ask os shown digits lq lr garbage_q garbage_r m server (record { fd = c; world = w }) ≡ (
        returned response,
        record { fd = c; world = os.print_line (codes "resp: " ++ digits m.b) w3 },
      )
  unfolding ask request SocketUdp.recv new_request
  ask-replier to_server waits to_client = rw (
    sendto_lem os (pack lq m) server 0 (record { fd = c; world = w }),
    waits,
    reply_round_lem to_server,
    to_client,
    received_packed lr response some_r,
    unpack-pack lr garbage_r response full_r,
  )
