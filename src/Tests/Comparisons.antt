-- ===== src/Tests/Comparisons.antt =====
-- The publisher and the subscriber of gtests/test_ps.cpp on a system that computes.
use marko_cpp.Prelude.{
  ℕ, ◌==◌, suc, Bytes, List, [], ◌∷◌, ◌++◌, length, Bool, true, false, pos, negsuc, ◌≡◌, refl,
  arith,
}
use marko_cpp.Outcome.{returned}
use marko_cpp.Os.{Os, Received}
use marko_cpp.Sockaddr.{InetAddr}
use marko_cpp.Loop.Queue.{at_world}
use marko_cpp.Transport.{udp}
use marko_cpp.Transport.Datagrams.{udp_datagrams}
use marko_cpp.Message.{Layout}
use marko_cpp.Gtests.{Harness}
use marko_cpp.Gtests.Feeds.{DataT, Counter, at, poll_all, publish_all}
use marko_cpp.Gtests.Feeds.Passes.{Stream, publish_all-poll_all}
use marko_cpp.Tests.Samples.{os_of, client_fd, server_fd, client_addr, server_addr}

record Bench : Type 0 where
  queue : List Bytes
  failed : ℕ
  index : ℕ

-- A number as one byte.
abbrev data_of : Bytes → DataT ℕ
data_of (x ∷ m) = record { a = x }
data_of [] = record { a = 0 }

abbrev byte_layout : Layout (DataT ℕ)
byte_layout = record {
  size = 1;
  bytes = λ d. d.a ∷ [];
  value_of = data_of;
  length-bytes = λ d. refl;
  value_of-bytes = λ d. refl;
}

abbrev front : List Bytes → Received InetAddr × List Bytes
front [] = (record { num = negsuc 0; written = []; from = client_addr }, [])
front (m ∷ rest) = (record { num = pos (length m); written = m; from = client_addr }, rest)

abbrev bench_os : Os
bench_os =
    os_of {W = Bench} (λ fd w. ((front w.queue).0, record w { queue = (front w.queue).1 }))
      (λ fd msg to w. record w { queue = w.queue ++ msg ∷ [] }) (λ line w. w)

abbrev tally : Bool → Bench → Bench
tally true w = w
tally false w = record w { failed = suc w.failed }

abbrev bench_harness : Harness bench_os
bench_harness = record { expect = tally; nap = λ usec w. w }

abbrev static_i : Counter Bench
static_i = record { value = λ w. w.index; bump = λ w. record w { index = suc w.index } }

is_same : (n : ℕ) → (n == n) ≡ true
is_same n = ground arith

bench_stream :
    Stream bench_os bench_harness static_i
      (udp bench_os)
      (udp_datagrams bench_os)
      1
      client_fd
      server_fd
      server_addr
bench_stream = record {
  waiting = λ w. w.queue;
  failures = λ w. w.failed;
  on_send = λ m w. (refl, refl, refl);
  on_receive = λ m rest w e full. rw e (refl, refl, refl, refl, refl);
  on_expect = λ w. (refl, refl, refl);
  on_nap = λ usec w. (refl, refl, refl);
  on_bump = λ w. (refl, refl, refl);
}

abbrev pushed_twice : List (DataT ℕ)
pushed_twice = record { a = 0 } ∷ record { a = 1 } ∷ record { a = 0 } ∷ record { a = 1 } ∷ []

-- The counter stands where the first test left it.
abbrev second_test : Bench
second_test = record { queue = []; failed = 0; index = 2 }

publish_all-poll_all_example :
    (u v : Bench) × (publish_all bench_os bench_harness static_i
        (λ m n. m == n)
        byte_layout
        (0 ∷ [])
        pushed_twice
        (udp bench_os)
        (record { clientaddrs = server_addr ∷ [] })
        0
        2
        (at_world client_fd second_test)
      ≡ (returned tt, at_world client_fd u))
    × (poll_all bench_os bench_harness static_i
          (λ m n. m == n)
          byte_layout
          (0 ∷ [])
          pushed_twice
          (udp bench_os)
          2
          (at_world server_fd u)
        ≡ (returned tt, at_world server_fd v))
    × (v.failed ≡ 0)
    × (v.queue ≡ [])
unfolding bench_stream at
publish_all-poll_all_example =
    publish_all-poll_all bench_os bench_harness static_i (λ m n. m == n) is_same byte_layout
      (0 ∷ []) refl (omega arith) pushed_twice (udp bench_os) (udp_datagrams bench_os) server_addr
      client_fd server_fd bench_stream (record { a = 0 } ∷ record { a = 1 } ∷ []) 0 second_test
      (refl, (refl, tt)) (refl, (refl, tt)) refl
