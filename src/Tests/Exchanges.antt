-- ===== src/Tests/Exchanges.antt =====
-- The theorems on publishers, subscribers, requests and replies, on the network of the samples.
use marko_cpp.Prelude.{Bytes, codes, [], ◌∷◌, ◌++◌, map, ℤ, pos, some, ◌≡◌, refl, arith}
use marko_cpp.Outcome.{returned}
use marko_cpp.Machine.{Sock}
use marko_cpp.Transport.{udp}
use marko_cpp.Transport.Datagrams.{udp_datagrams}
use marko_cpp.SocketUdp.{received}
use marko_cpp.PubSub
use marko_cpp.PubSub.{call_all, publish}
use marko_cpp.PubSub.Delivery.{acts, act_all, once-acts}
use marko_cpp.RequestReply
use marko_cpp.RequestReply.{answer, call_callback, request}
use marko_cpp.RequestReply.Exchange.{computes, once_answers}
use marko_cpp.Tests.Samples.{
  Net, for_server, for_client, os, network, client_fd, server_fd, reply_of,
}

-- A client with one datagram pending for it.
abbrev one_pending : Sock Net
one_pending = record { fd = client_fd; world = network (for_client (codes "hi") ∷ []) }

abbrev keeps_closed : ℤ → Bytes → Net → Net
keeps_closed n msg w = record w { closed = n ∷ w.closed }

once-acts_example :
    PubSub.once
      (udp os)
      (record {
        callbacks = map acts (keeps_closed (pos 7) ∷ keeps_closed (pos 8) ∷ []);
        data_size = 2;
      })
      one_pending
    ≡ (
      returned tt,
      record { fd = client_fd; world = record { pending = []; closed = pos 8 ∷ pos 7 ∷ [] } },
    )
unfolding received act_all
once-acts_example = once-acts os (keeps_closed (pos 7) ∷ keeps_closed (pos 8) ∷ []) 2 one_pending

once_answers_example :
    RequestReply.once
      (udp os)
      (record { callback = some (computes reply_of); msg_size = 5 })
      (record { fd = server_fd; world = network (for_server (codes "hi") ∷ []) })
    ≡ (
      returned tt,
      record {
        fd = server_fd;
        world = network (for_client (codes "!hi" ++ (0 ∷ 0 ∷ 0 ∷ [])) ∷ []);
      },
    )
once_answers_example =
    once_answers (udp os) (udp_datagrams os) reply_of 5 1
      (record { fd = server_fd; world = network (for_server (codes "hi") ∷ []) }) refl refl
      (omega arith)
