-- ===== src/Gtests/Broadcast.antt =====
-- gtests/test_bc.cpp: a server that broadcasts five subscriptions, and clients that compare what
-- they get with them. The array of test data is walked as a list; the threads and the sleep of the
-- test's body are left out.
pub mod Air
pub mod Clients
use marko_cpp.Prelude.{pos, true, ℕ, Bytes, codes, List, [], ◌∷◌, ◌++◌, ◌==◌}
use marko_cpp.Prelude.Decimal.{to_string}
use marko_cpp.Outcome.{Outcome}
use marko_cpp.Sockaddr.{InetAddr}
use marko_cpp.Os.{Os}
use marko_cpp.Machine.{Sock, M, ◌>>=◌, ◌>>◌, ret, lift, effect}
use marko_cpp.Socket.{new_socket, bind, reuse_socket}
use marko_cpp.SocketUdp.{constructs, destructs, recv}
use marko_cpp.SocketBc.{new_bc, cast}
use marko_cpp.Time.{msleep}
use marko_cpp.Message.{Subscription, subscribe, unsubscribe, pack, unpack}
use marko_cpp.Message.Memory.{subscription}
use marko_cpp.Gtests.{Harness}

abbrev pub port : ℕ
port = 11311

abbrev pub bc_test_data : List Subscription
bc_test_data =
    record { topic = 19; status = subscribe }
    ∷ record { topic = 72; status = unsubscribe }
    ∷ record { topic = 103; status = subscribe }
    ∷ record { topic = 144; status = unsubscribe }
    ∷ record { topic = 250; status = subscribe }
    ∷ []

module _ (os : Os) (h : Harness os) where
  -- One round of the server.
  unfoldable pub cast_one : InetAddr → Subscription → M os.World (Unit {0})
  unfolding msleep
  cast_one bc_addr d = do
    num ← cast os bc_addr (pack subscription d)
    effect (h.nap (msleep (pos 100)))

  unfoldable pub cast_data : InetAddr → List Subscription → M os.World (Unit {0})
  unfolding cast_one
  cast_data bc_addr [] = ret tt
  cast_data bc_addr (d ∷ ds) = do let rest = cast_data bc_addr ds; cast_one bc_addr d; rest

  unfoldable pub server : os.World → Outcome (Unit {0}) × Sock os.World
  unfolding cast_data
  server w = destructs os (
      (do bc_addr ← (λ s. new_bc os port s.world); cast_data bc_addr bc_test_data)
        (new_socket os w))

  -- One round of a client; `garbage` is the memory of `unpack`'s result.
  unfoldable pub check_one : Bytes → Subscription → M os.World (Unit {0})
  check_one garbage d = do
    m ← recv os subscription.size 0
    msg ← lift (unpack subscription garbage m)
    effect (h.expect (msg.topic == d.topic))
    effect (h.expect (msg.status == d.status))

  unfoldable pub check_data : Bytes → List Subscription → M os.World (Unit {0})
  unfolding check_one
  check_data garbage [] = ret tt
  check_data garbage (d ∷ ds) = do let rest = check_data garbage ds; check_one garbage d; rest

  unfoldable pub client : Bytes → os.World → Outcome (Unit {0}) × Sock os.World
  unfolding check_data
  client garbage w = destructs os (
      (do
        constructs os
        reuse_socket os true
        bind os (codes "udp://*:" ++ to_string port)
        check_data garbage bc_test_data)
        (new_socket os w))
