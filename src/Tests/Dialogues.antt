-- ===== src/Tests/Dialogues.antt =====
-- The requester and the replier of examples/rr.cpp on a system that runs the replier where the
-- requester waits.
use marko_cpp.Prelude.{
  sym, ℕ, Bytes, codes, List, [], ◌∷◌, ◌++◌, length, Bool, true, false, pos, negsuc, ◌≡◌, refl,
  arith, subst,
}
use marko_cpp.Outcome.{returned}
use marko_cpp.Sockaddr.{InetAddr}
use marko_cpp.Os.{Os, Received}
use marko_cpp.Socket.{guard}
use marko_cpp.SocketUdp
use marko_cpp.SocketUdp.{received}
use marko_cpp.RequestReply.{once, answer, call_callback, new_reply, register_cb}
use marko_cpp.Message.{pack, unpack}
use marko_cpp.Examples.Rr.{RequestT, ask_all, cb, replier}
use marko_cpp.Examples.Rr.Session.{conversation, Dialogue, answers, ask_all-conversation}
use marko_cpp.Tests.Samples.{os_of, is_server, client_fd, server_fd, client_addr, server_addr}
use marko_cpp.Tests.Programs.{request_layout, response_layout}

record Table : Type 0 where
  asked : List Bytes
  told : List Bytes
  shown : List Bytes

abbrev print_request : RequestT ℕ ℕ → Bytes
print_request m = m.a ∷ m.b ∷ []

abbrev print_number : ℕ → Bytes
print_number n = n ∷ []

abbrev whole_by : Bytes → InetAddr → Received InetAddr
whole_by m from = record { num = pos (length m); written = m; from = from }

abbrev silent_by : Received InetAddr
silent_by = record { num = negsuc 0; written = []; from = server_addr }

-- The requester's call, by what was asked and told.
abbrev hear : List Bytes → List Bytes → List Bytes → Received InetAddr × Table
hear asked (m ∷ told) shown =
    (whole_by m server_addr, record { asked = asked; told = told; shown = shown })
hear ((x ∷ y ∷ []) ∷ asked) [] shown = (
  whole_by (y ∷ []) server_addr,
  record { asked = asked; told = []; shown = shown ++ (codes "cb: " ++ x ∷ y ∷ []) ∷ [] },
)
hear asked [] shown = (silent_by, record { asked = asked; told = []; shown = shown })

abbrev next_asked : List Bytes → Received InetAddr × List Bytes
next_asked [] = (silent_by, [])
next_asked (m ∷ rest) = (whole_by m client_addr, rest)

abbrev listen : Bool → Table → Received InetAddr × Table
listen true w = ((next_asked w.asked).0, record w { asked = (next_asked w.asked).1 })
listen false w = hear w.asked w.told w.shown

abbrev speak : Bool → Bytes → Table → Table
speak true m w = record w { told = w.told ++ m ∷ [] }
speak false m w = record w { asked = w.asked ++ m ∷ [] }

abbrev table_os : Os
table_os =
    os_of {W = Table} (λ fd. listen (is_server fd)) (λ fd m to. speak (is_server fd) m)
      (λ line w. record w { shown = w.shown ++ line ∷ [] })

abbrev serve_round : Table → Table
serve_round =
    answers table_os print_request print_number request_layout response_layout (0 ∷ 0 ∷ []) (0 ∷ [])
      refl refl (omega arith) (omega arith) server_addr client_addr client_fd server_fd

serve_round_lem :
    (m : Bytes) (rest shown : List Bytes)
    → length m ≡ 2
    → hear (m ∷ rest) [] shown
      ≡ listen false (serve_round (record { asked = m ∷ rest; told = []; shown = shown }))
unfolding once answer call_callback SocketUdp.recvfrom SocketUdp.sendto received guard replier
    register_cb new_reply cb pack unpack
serve_round_lem [] rest shown full = absurd (omega (arith, full))
serve_round_lem (x ∷ []) rest shown full = absurd (omega (arith, full))
serve_round_lem (x ∷ y ∷ []) rest shown full = refl
serve_round_lem (x ∷ y ∷ z ∷ m) rest shown full = absurd (omega (arith, full))

table_talk : Dialogue table_os 2 1 client_fd server_fd server_addr client_addr serve_round
table_talk = record {
  lines = λ w. w.shown;
  channel = record {
    requests = λ w. w.asked;
    inbox = λ w. w.told;
    on_ask = λ m w. (refl, refl, refl);
    on_take = λ m rest w e full. rw e (refl, refl, refl, refl);
    on_reply = λ m w. (refl, refl, refl);
    on_get = λ m rest w e full. rw e (refl, refl, refl, refl);
    waits = λ m rest w e full none_told.
        subst (λ v. listen false v ≡ listen false (serve_round v))
          (λ i. record { asked = sym e i; told = sym none_told i; shown = w.shown })
          (serve_round_lem m rest w.shown full);
  };
  on_print = λ line w. (refl, refl, refl);
}

abbrev empty_table : Table
empty_table = record { asked = []; told = []; shown = [] }

ask_all-conversation_example :
    (v : Table) × (ask_all table_os print_request print_number request_layout response_layout
        (0 ∷ 0 ∷ [])
        (0 ∷ [])
        (λ i. (7, i))
        server_addr
        0
        2
        (record { fd = client_fd; world = empty_table })
      ≡ (returned tt, record { fd = client_fd; world = v }))
    × (v.shown
        ≡ (codes "cb: " ++ 7 ∷ 0 ∷ [])
          ∷ (codes "resp: " ++ 0 ∷ [])
          ∷ (codes "cb: " ++ 7 ∷ 1 ∷ [])
          ∷ (codes "resp: " ++ 1 ∷ [])
          ∷ [])
    × (v.asked ≡ [])
    × (v.told ≡ [])
unfolding table_talk conversation
ask_all-conversation_example =
    ask_all-conversation table_os print_request print_number request_layout response_layout
      (0 ∷ 0 ∷ []) (0 ∷ []) refl refl (omega arith) (omega arith) server_addr client_addr client_fd
      server_fd table_talk (λ i. (7, i)) 0 2 empty_table refl refl
