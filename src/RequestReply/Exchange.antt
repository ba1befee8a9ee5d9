-- ===== src/RequestReply/Exchange.antt =====
-- A request and its reply (src/include/marko/request_reply.hpp), for every socket that keeps the
-- promises of `Datagrams`, as UDP and Unix sockets do.
use marko_cpp.Prelude.{
  ℕ, suc, ◌-◌, ◌≤◌, ◌<◌, Bytes, [], ◌∷◌, ◌++◌, append-nil, length, replicate, ℤ, pos, is_neg, some,
  ◌≡◌, refl, arith, length-append, length-replicate, drop_all, ◌∙◌, ap,
}
use marko_cpp.Outcome.{Outcome, returned}
use marko_cpp.Os.{Received}
use marko_cpp.Machine.{Sock}
use marko_cpp.Transport.{Transport}
use marko_cpp.Transport.Datagrams.{Datagrams}
use marko_cpp.SocketUdp.{received}
use marko_cpp.SocketUdp.Laws.{received_padded}
use marko_cpp.RequestReply.{ReplyCallback, answer, once, request}

-- A callback that computes its reply from the message alone.
abbrev pub computes : {W : Type 0} → (Bytes → Bytes) → ReplyCallback W
computes f m s = (returned (f m), s)

-- What a datagram that arrives whole, alone, is for the receiver.
abbrev pub arrives : {A : Type 0} → Bytes → A → Received A
arrives msg from = record { num = pos (length msg); written = msg; from = from }

pub received_whole : (m : Bytes) → 0 < length m → received (length m) (pos (length m)) m ≡ m
unfolding received
received_whole [] h = absurd (omega arith)
received_whole (c ∷ m) h =
    rw
      (
        drop_all (length m) (replicate {A = ℕ} (length m) 0)
            (omega (arith, length-replicate {0} {A = ℕ} (length m) 0)),
        append-nil,
      )
      (ground arith)

module _ {W : Type 0} (t : Transport W) (d : Datagrams t) (f : Bytes → Bytes) where
  pub answer-computes :
      (size : ℕ) (m : Bytes) (from : t.Addr) (s : Sock W)
      → length m ≡ size
      → 0 < size
      → answer t (record { callback = some (computes f); msg_size = size }) m from s
        ≡ (returned tt, record s { world = (d.send s.fd (f m) from s.world).1 })
  unfolding answer
  answer-computes size m from s full some_size = ground (arith, d.sendto_sends (f m) from s)

  -- One round of a reply whose callback computes its answer from the message alone: it asks for
  -- `size` bytes and gets a datagram of `k + 1`, which is at most `size`. Whatever that length is,
  -- the callback is run, on the datagram filled up with zeros, and what it returns is sent to the
  -- sender.
  pub once_answers :
      (size k : ℕ) (s : Sock W)
      → let r = d.take s.fd size s.world in
        r.0.num ≡ pos (suc k)
        → length r.0.written ≡ suc k
        → suc k ≤ size
        → once t (record { callback = some (computes f); msg_size = size }) s ≡ (
          returned tt,
          record s {
            world = (d.send s.fd (f (r.0.written ++ replicate (size - suc k) 0)) r.0.from r.1).1;
          },
        )
  unfolding once
  once_answers size k s num len fits =
      let r = d.take s.fd size s.world in
      let m : Bytes = r.0.written ++ replicate (size - suc k) 0 in
      rw (d.recvfrom_takes size s, num, received_padded size k r.0.written len)
        (answer-computes size m r.0.from (record s { world = r.1 })
          (omega (
            arith,
            length-append r.0.written (replicate (size - suc k) 0),
            length-replicate {0} {A = ℕ} (size - suc k) 0,
          ))
          (omega arith))

  module _ (msg : Bytes) (server client : t.Addr) (c s : ℤ) (w w2 w3 : W)
      (nonempty : 0 < length msg) (replied : 0 < length (f msg)) where
    -- The world after the client's send, the server's round in that world, and the world after the
    -- server's send.
    abbrev pub sent : W
    sent = (d.send c msg server w).1

    abbrev pub server_round : Outcome (Unit {0}) × Sock W
    server_round =
        once t (record { callback = some (computes f); msg_size = length msg })
          (record { fd = s; world = sent })

    abbrev pub answered : W
    answered = (d.send s (f msg) client w2).1

    server_answers :
        d.take s (length msg) sent ≡ (arrives msg client, w2)
        → server_round ≡ (returned tt, record { fd = s; world = answered })
    unfolding once
    server_answers to_server =
        rw
          (
            d.recvfrom_takes (length msg) (record { fd = s; world = sent }),
            to_server,
            received_whole msg nonempty,
          )
          (answer-computes (length msg) msg client (record { fd = s; world = w2 }) refl nonempty)

    client_gets :
        (v : W)
        → d.take c (length (f msg)) v ≡ (arrives (f msg) server, w3)
        → t.recv (length (f msg)) (record { fd = c; world = v })
          ≡ (returned (f msg), record { fd = c; world = w3 })
    client_gets v got =
        d.recv_takes (length (f msg)) (record { fd = c; world = v }) (ap (λ r. is_neg r.0.num) got)
        ∙ rw (got, received_whole (f msg) replied)

    -- A whole exchange of a message and a reply that are not empty, over any socket of datagrams. The
    -- network gives the server the client's datagram; the client's receive call waits until the server
    -- has run its round, and then gives it the server's datagram. A request of the size that the
    -- server expects, with a reply of the size that the client expects, returns what the server's
    -- callback computes of the message.
    pub request-once :
        d.take s (length msg) sent ≡ (arrives msg client, w2)
        → d.take c (length (f msg)) sent ≡ d.take c (length (f msg)) server_round.1.world
        → d.take c (length (f msg)) answered ≡ (arrives (f msg) server, w3)
        → request t (record { msg_size = length (f msg) }) msg server (record { fd = c; world = w })
          ≡ (returned (f msg), record { fd = c; world = w3 })
    unfolding request
    request-once to_server blocks to_client =
        rw (d.sendto_sends msg server (record { fd = c; world = w }))
          (client_gets sent (blocks ∙ rw (server_answers to_server) to_client))
