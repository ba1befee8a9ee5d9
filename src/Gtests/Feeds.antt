-- ===== src/Gtests/Feeds.antt =====
-- gtests/test_ps.cpp: a publisher of the test data and a subscriber that compares what it gets with
-- it, over UDP and over Unix sockets. The numbers of C++'s `int`, the memory layout of `data_t` and the
-- place of the callback's `static int i` are parameters. The threads and the sleep of the tests'
-- bodies are left out.
pub mod Passes
use marko_cpp.Prelude.{pos, ℕ, zero, suc, Bool, Bytes, codes, List, [], ◌∷◌, ◌++◌}
use marko_cpp.Prelude.Decimal.{to_string}
use marko_cpp.Outcome.{Outcome, returned, undefined}
use marko_cpp.Sockaddr.{inet_sockaddr, unix_sockaddr}
use marko_cpp.Os.{Os}
use marko_cpp.Machine.{Sock, M, ◌>>=◌, ◌>>◌, ret, lift, effect}
use marko_cpp.Socket.{new_socket, bind}
use marko_cpp.SocketUdp.{constructs, destructs}
use marko_cpp.SocketUnix.{new_unix}
use marko_cpp.Time.{msleep}
use marko_cpp.Transport.{Transport, udp, unix}
use marko_cpp.Message.{Layout, pack, unpack}
use marko_cpp.PubSub.{
  SubCallback, Subscriber, new_subscriber, register_cb, once, Publisher, register_addr, publish,
}
use marko_cpp.Gtests.{Harness}

abbrev pub port : ℕ
port = 8888

abbrev pub rounds : ℕ
rounds = 5

abbrev pub udpbind : Bytes
udpbind = codes "udp://*:" ++ to_string port

abbrev pub udpaddr : Bytes
udpaddr = codes "udp://127.0.0.1:" ++ to_string port

abbrev pub unix_path : Bytes
unix_path = codes "unix://./unix.ps.uds"

pub record DataT (Int : Type 0) : Type 0 where
  pub a : Int

-- `static int i`, which is left by one test to the next.
pub record Counter (W : Type 0) : Type 0 where
  pub value : W → ℕ
  pub bump : W → W

-- `test_data[i]`
unfoldable pub at : {A : Type 0} → List A → ℕ → Outcome A
at [] i = undefined
at (x ∷ xs) zero = returned x
at (x ∷ xs) (suc i) = at xs i

module _ (os : Os) (h : Harness os) (i : Counter os.World) {Int : Type 0} (eq : Int → Int → Bool)
    (l : Layout (DataT Int)) (garbage : Bytes) (test_data : List (DataT Int)) where
  unfoldable pub callback : SubCallback os.World
  callback m = do
    d ← lift (unpack l garbage m)
    n ← (λ s. ret (i.value s.world) s)
    effect i.bump
    x ← lift (at test_data n)
    effect (h.expect (eq d.a x.a))

  unfoldable pub subscriber : Subscriber os.World
  subscriber = register_cb callback (new_subscriber l.size)

  -- The rounds of the subscriber that are left.
  unfoldable pub poll_all : Transport os.World → ℕ → M os.World (Unit {0})
  unfolding subscriber
  poll_all t zero = ret tt
  poll_all t (suc n) = do let rest = poll_all t n; once t subscriber; rest

  -- The rounds of the publisher that are left, from the `k`-th.
  unfoldable pub publish_all :
      (t : Transport os.World) → Publisher t → ℕ → ℕ → M os.World (Unit {0})
  unfolding msleep
  publish_all t p k zero = ret tt
  publish_all t p k (suc n) = do
    let rest = publish_all t p (suc k) n
    d ← lift (at test_data k)
    publish t (pack l d) p
    effect (h.nap (msleep (pos 1)))
    rest

  unfoldable pub sub_thread : os.World → Outcome (Unit {0}) × Sock os.World
  unfolding poll_all
  sub_thread w =
      destructs os ((do constructs os; bind os udpbind; poll_all (udp os) rounds) (new_socket os w))

  unfoldable pub pub_thread : os.World → Outcome (Unit {0}) × Sock os.World
  unfolding publish_all
  pub_thread w = destructs os (
      (do
        addr ← lift (inet_sockaddr os.net udpaddr)
        constructs os
        publish_all (udp os) (register_addr (udp os) addr (record { clientaddrs = [] })) 0 rounds)
        (new_socket os w))

  unfoldable pub sub_thread_un : os.World → Outcome (Unit {0}) × Sock os.World
  unfolding poll_all
  sub_thread_un w = destructs os (
      (do (λ s. new_unix os s.world); bind os unix_path; poll_all (unix os) rounds)
        (new_socket os w))

  unfoldable pub pub_thread_un : os.World → Outcome (Unit {0}) × Sock os.World
  unfolding publish_all
  pub_thread_un w = destructs os (
      (do
        addr ← lift (unix_sockaddr os.net unix_path)
        (λ s. new_unix os s.world)
        publish_all (unix os) (register_addr (unix os) addr (record { clientaddrs = [] })) 0 rounds)
        (new_socket os w))
