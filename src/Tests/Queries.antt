-- ===== src/Tests/Queries.antt =====
-- The requester and the replier of gtests/test_rr.cpp on a system that runs the replier where the
-- requester waits.
use marko_cpp.Prelude.{
  ℕ, ◌+◌, ◌==◌, suc, sym, subst, Bytes, List, [], ◌∷◌, ◌++◌, length, Bool, true, false, pos, negsuc,
  ◌≡◌, refl, arith,
}
use marko_cpp.Outcome.{returned}
use marko_cpp.Os.{Os, Received}
use marko_cpp.Sockaddr.{InetAddr}
use marko_cpp.Socket.{guard}
use marko_cpp.SocketUdp.{received}
use marko_cpp.Loop.Queue.{at_world}
use marko_cpp.Machine.{M}
use marko_cpp.RequestReply.Remote.{Handles, request_all, request_all-call_each}
use marko_cpp.RequestReply.{Reply, once, answer, call_callback, new_reply, register_cb}
use marko_cpp.Message.{Layout, pack, unpack}
use marko_cpp.Gtests.{Harness}
use marko_cpp.SocketUnix
use marko_cpp.Socket.{socket_err}
use marko_cpp.Socket.Paths.{named_path}
use marko_cpp.Transport.{unix}
use marko_cpp.Transport.Datagrams.{unix_datagrams}
use marko_cpp.Sockaddr.{UnixAddr}
use marko_cpp.Prelude.{ap, if◌then◌else◌}
use marko_cpp.Gtests.Queries.Runs.{unix_answers, rr_path, rr2_path, req_thread_un-passes}
use marko_cpp.Gtests.Queries.{req_thread_un, RequestT, cb, replier}
use marko_cpp.Gtests.Queries.Passes.{Line}
use marko_cpp.Tests.Samples.{net, os_of, is_server, client_fd, server_fd, client_addr, server_addr}

-- What waits at the replier and at the requester, and how many tests failed.
record Desk : Type 0 where
  asked : List Bytes
  told : List Bytes
  failed : ℕ

-- A number as one byte.
abbrev number_of : Bytes → RequestT ℕ
number_of (x ∷ m) = record { a = x }
number_of [] = record { a = 0 }

abbrev number_layout : Layout (RequestT ℕ)
number_layout = record {
  size = 1;
  bytes = λ d. d.a ∷ [];
  value_of = number_of;
  length-bytes = λ d. refl;
  value_of-bytes = λ d. refl;
}

abbrev comes_from : Bytes → InetAddr → Received InetAddr
comes_from m from = record { num = pos (length m); written = m; from = from }

abbrev none_comes : Received InetAddr
none_comes = record { num = negsuc 0; written = []; from = server_addr }

-- The requester's call, by what was asked and told.
abbrev wait_for : List Bytes → List Bytes → ℕ → Received InetAddr × Desk
wait_for asked (m ∷ told) failed =
    (comes_from m server_addr, record { asked = asked; told = told; failed = failed })
wait_for ((x ∷ []) ∷ asked) [] failed =
    (comes_from ((x + x) ∷ []) server_addr, record { asked = asked; told = []; failed = failed })
wait_for asked [] failed = (none_comes, record { asked = asked; told = []; failed = failed })

abbrev first_asked : List Bytes → Received InetAddr × List Bytes
first_asked [] = (none_comes, [])
first_asked (m ∷ rest) = (comes_from m client_addr, rest)

abbrev accept : Bool → Desk → Received InetAddr × Desk
accept true w = ((first_asked w.asked).0, record w { asked = (first_asked w.asked).1 })
accept false w = wait_for w.asked w.told w.failed

abbrev write_to : Bool → Bytes → Desk → Desk
write_to true m w = record w { told = w.told ++ m ∷ [] }
write_to false m w = record w { asked = w.asked ++ m ∷ [] }

abbrev desk_os : Os
desk_os =
    os_of {W = Desk} (λ fd. accept (is_server fd)) (λ fd m to. write_to (is_server fd) m)
      (λ line w. w)

abbrev count : Bool → Desk → Desk
count true w = w
count false w = record w { failed = suc w.failed }

abbrev desk_harness : Harness desk_os
desk_harness = record { expect = count; nap = λ usec w. w }

abbrev double_of : ℕ → ℕ
double_of n = n + n

equal_same : (n : ℕ) → (n == n) ≡ true
equal_same n = ground arith

abbrev empty_desk : Desk
empty_desk = record { asked = []; told = []; failed = 0 }

abbrev two_numbers : List (RequestT ℕ)
two_numbers = record { a = 3 } ∷ record { a = 4 } ∷ []

-- The same desk behind Unix sockets.
abbrev relabel : UnixAddr → Received InetAddr → Received UnixAddr
relabel from r = record { num = r.num; written = r.written; from = from }

abbrev desk_unix_os : Os
desk_unix_os = record desk_os {
  recvfrom_un = λ fd size flags w.
      let r = accept (is_server fd) w in
      (relabel (named_path net (if is_server fd then rr2_path else rr_path)) r.0, r.1);
}

abbrev desk_unix_harness : Harness desk_unix_os
desk_unix_harness = record { expect = count; nap = λ usec w. w }

abbrev desk_unix_round : Desk → Desk
desk_unix_round =
    unix_answers desk_unix_os desk_unix_harness double_of (λ m n. m == n) equal_same number_layout
      (0 ∷ []) refl (omega arith) 1 server_fd (named_path net rr2_path)

desk_unix_round_lem :
    (m : Bytes) (rest : List Bytes) (failed : ℕ)
    → length m ≡ 1
    → wait_for (m ∷ rest) [] failed
      ≡ accept false (desk_unix_round (record { asked = m ∷ rest; told = []; failed = failed }))
unfolding once answer call_callback SocketUnix.recvfrom SocketUnix.sendto received guard replier
    register_cb new_reply cb pack unpack
desk_unix_round_lem [] rest failed full = absurd (omega (arith, full))
desk_unix_round_lem (x ∷ []) rest failed full = refl
desk_unix_round_lem (x ∷ y ∷ m) rest failed full = absurd (omega (arith, full))

abbrev requester_takes : Desk → Received UnixAddr × Desk
requester_takes w = let r = accept false w in (relabel (named_path net rr_path) r.0, r.1)

abbrev desk_unix_line :
    Line desk_unix_os desk_unix_harness
      (unix desk_unix_os)
      (unix_datagrams desk_unix_os)
      1
      client_fd
      server_fd
      (named_path net rr_path)
      (named_path net rr2_path)
      desk_unix_round
desk_unix_line = record {
  failures = λ w. w.failed;
  channel = record {
    requests = λ w. w.asked;
    inbox = λ w. w.told;
    on_ask = λ m w. (refl, refl, refl);
    on_take = λ m rest w e full. rw e (refl, refl, refl, refl);
    on_reply = λ m w. (refl, refl, refl);
    on_get = λ m rest w e full. rw e (refl, refl, refl, refl);
    waits = λ m rest w e full none_told.
        subst (λ v. requester_takes v ≡ requester_takes (desk_unix_round v))
          (λ i. record { asked = sym e i; told = sym none_told i; failed = w.failed })
          (ap (λ r. (relabel (named_path net rr_path) r.0, r.1))
            (desk_unix_round_lem m rest w.failed full));
  };
  on_expect = λ w. (refl, refl, refl);
  on_nap = λ usec w. (refl, refl, refl);
}

req_thread_un-passes_example :
    (v : Desk) × (req_thread_un desk_unix_os desk_unix_harness double_of
        (λ m n. m == n)
        number_layout
        (0 ∷ [])
        two_numbers
        empty_desk
      ≡ (returned tt, record { fd = socket_err; world = v }))
    × (v.asked ≡ [])
    × (v.told ≡ [])
    × (v.failed ≡ 0)
req_thread_un-passes_example =
    req_thread_un-passes desk_unix_os desk_unix_harness double_of (λ m n. m == n) equal_same
      number_layout (0 ∷ []) refl (omega arith) 1 server_fd (named_path net rr2_path) desk_unix_line
      two_numbers 0 empty_desk empty_desk empty_desk refl refl refl refl

abbrev unix_cb : Bytes → M Desk Bytes
unix_cb = cb desk_unix_os desk_unix_harness double_of (λ m n. m == n) number_layout (0 ∷ [])

abbrev unix_replier : Reply Desk
unix_replier =
    replier desk_unix_os desk_unix_harness double_of (λ m n. m == n) number_layout (0 ∷ [])

-- The replier as a function: the failures are not touched.
abbrev doubles : Bytes → ℕ → Bytes × ℕ
doubles m n = let x = (number_of m).a in ((x + x) ∷ [], n)

doubles_handles :
    Handles
      (unix desk_unix_os)
      (unix_datagrams desk_unix_os)
      1
      1
      (omega arith)
      (omega arith)
      client_fd
      server_fd
      (named_path net rr_path)
      (named_path net rr2_path)
      unix_cb
      unix_replier
      (unfold replier register_cb new_reply in refl)
      doubles
      (λ w. w.failed)
      desk_unix_line.channel
unfolding cb pack unpack replier register_cb new_reply
doubles_handles [] w full = absurd (omega (arith, full))
doubles_handles (x ∷ []) w full = (refl, w, refl, refl, refl, refl)
doubles_handles (x ∷ y ∷ m) w full = absurd (omega (arith, full))

request_all-call_each_example :
    (v : Desk) × (request_all
        (unix desk_unix_os)
        1
        (named_path net rr_path)
        ((3 ∷ []) ∷ (4 ∷ []) ∷ [])
        (at_world client_fd empty_desk)
      ≡ (returned ((6 ∷ []) ∷ (8 ∷ []) ∷ []), at_world client_fd v))
    × (v.failed ≡ 0)
    × (v.asked ≡ [])
    × (v.told ≡ [])
unfolding cb replier register_cb new_reply pack unpack
request_all-call_each_example =
    request_all-call_each (unix desk_unix_os) (unix_datagrams desk_unix_os) 1 1 (omega arith)
      (omega arith) client_fd server_fd (named_path net rr_path) (named_path net rr2_path) unix_cb
      unix_replier refl doubles (λ w. w.failed) desk_unix_line.channel doubles_handles
      ((3 ∷ []) ∷ (4 ∷ []) ∷ []) empty_desk (refl, (refl, tt)) refl refl
