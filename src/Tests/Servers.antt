-- ===== src/Tests/Servers.antt =====
-- The loop of a replier at a desk of requests, and of a subscriber there.
use marko_cpp.Prelude.{
  ltb, length, Bytes, codes, List, [], ◌∷◌, ◌++◌, true, negsuc, pos, ◌≡◌, refl, arith,
}
use marko_cpp.Outcome.{returned}
use marko_cpp.Sockaddr.{InetAddr}
use marko_cpp.Os.{Os, Received, Address, inet_at, unix_at}
use marko_cpp.Prelude.{none}
use marko_cpp.Machine.{Sock}
use marko_cpp.Socket.Failure.{Fails}
use marko_cpp.PubSub.{Subscriber, subscriber_loop}
use marko_cpp.RequestReply.{Reply}
use marko_cpp.Timeouts.{loops-timeout}
use marko_cpp.Transport.{udp, unix}
use marko_cpp.Transport.Datagrams.{udp_datagrams}
use marko_cpp.RequestReply.{reply_loop}
use marko_cpp.RequestReply.Serving.{Mailbox, replier, reply_loop-answers}
use marko_cpp.Tests.Samples.{os_of, server_fd, client_addr, server_addr, reply_of}

-- The requests that wait, and the replies.
record Desk : Type 0 where
  asked : List (Bytes × InetAddr)
  told : List (Bytes × InetAddr)

abbrev first_asked : List (Bytes × InetAddr) → Received InetAddr × List (Bytes × InetAddr)
first_asked [] = (record { num = negsuc 0; written = []; from = server_addr }, [])
first_asked ((m, from) ∷ rest) = (record { num = pos (length m); written = m; from = from }, rest)

abbrev tell : Bytes → Address → Desk → Desk
tell m (inet_at to) w = record w { told = w.told ++ (m, to) ∷ [] }
tell m (unix_at to) w = w

abbrev desk_os : Os
desk_os =
    os_of (λ fd w. ((first_asked w.asked).0, record w { asked = (first_asked w.asked).1 }))
      (λ fd. tell) (λ line w. w)

desk_box : Mailbox (udp desk_os) (udp_datagrams desk_os) server_fd 3
desk_box = record {
  requests = λ w. w.asked;
  replies = λ w. w.told;
  on_take = λ m from rest w e fits. rw e (refl, refl, refl);
  on_send = λ m to w. (refl, refl);
}

-- The first request is short.
abbrev three_asked : Desk
three_asked = record {
  asked = (codes "hi", client_addr) ∷ (codes "you", server_addr) ∷ (codes "no", client_addr) ∷ [];
  told = [];
}

reply_loop-answers_example :
    (v : Desk) × (reply_loop
        (udp desk_os)
        (λ w. ltb (length w.told) 2)
        (replier (udp desk_os) (udp_datagrams desk_os) server_fd 3 desk_box reply_of)
        3
        (record { fd = server_fd; world = three_asked })
      ≡ (returned true, record { fd = server_fd; world = v }))
    × (v.told ≡ (codes "!hi" ++ 0 ∷ [], client_addr) ∷ (codes "!you", server_addr) ∷ [])
    × (v.asked ≡ (codes "no", client_addr) ∷ [])
unfolding desk_box
reply_loop-answers_example =
    reply_loop-answers (udp desk_os) (udp_datagrams desk_os) server_fd 3 desk_box reply_of
      (λ w. ltb (length w.told) 2) 2 (λ w. refl)
      ((codes "hi", client_addr) ∷ (codes "you", server_addr) ∷ []) ((codes "no", client_addr) ∷ [])
      three_asked refl ((omega arith, omega arith), ((omega arith, omega arith), tt)) refl 3
      (omega arith)

-- Nothing comes to the replier.
abbrev no_request : Sock Desk
no_request = record { fd = server_fd; world = record { asked = []; told = [] } }

abbrev deaf : Subscriber Desk
deaf = record { callbacks = []; data_size = 2 }

abbrev dumb : Reply Desk
dumb = record { callback = none; msg_size = 2 }

loops-timeout_example :
    Fails (subscriber_loop (unix desk_os) (λ w. true) deaf 3 no_request)
    × (subscriber_loop (udp desk_os) (λ w. true) deaf 3 no_request
        ≡ subscriber_loop (udp desk_os) (λ w. true) deaf 2 no_request)
    × (reply_loop (udp desk_os) (λ w. true) dumb 3 no_request
        ≡ reply_loop (udp desk_os) (λ w. true) dumb 2 no_request)
    × (reply_loop (unix desk_os) (λ w. true) dumb 3 no_request
        ≡ reply_loop (unix desk_os) (λ w. true) dumb 2 no_request)
loops-timeout_example = loops-timeout desk_os (λ w. true) 2 no_request refl 2 [] none refl refl
