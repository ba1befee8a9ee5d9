-- ===== src/Examples/Ps.antt =====
-- examples/ps.cpp: a publisher and a subscriber over UDP. The numbers of C++'s `double` and `int`,
-- the memory layout of `data_t` and what `print` writes of it are parameters; `HOST` is an argument.
pub mod Programs
pub mod Lines
pub mod Together
pub mod Process
use marko_cpp.Prelude.{ℕ, zero, suc, Bytes, codes, ◌++◌, []}
use marko_cpp.Prelude.Decimal.{to_string}
use marko_cpp.Outcome.{Outcome}
use marko_cpp.Sockaddr.{InetAddr, inet_sockaddr}
use marko_cpp.Os.{Os}
use marko_cpp.Machine.{Sock, M, ◌>>=◌, ◌>>◌, ret, lift, effect}
use marko_cpp.Socket.{new_socket, bind}
use marko_cpp.SocketUdp.{constructs, destructs}
use marko_cpp.Transport.{udp}
use marko_cpp.Message.{Layout, pack, unpack}
use marko_cpp.PubSub.{
  SubCallback, Subscriber, new_subscriber, register_cb, once, Publisher, register_addr, publish,
}

pub record DataT (Real Int : Type 0) : Type 0 where
  pub a : Real
  pub b : Int

abbrev pub port : ℕ
port = 3000

abbrev pub max_loop : ℕ
max_loop = 10

module _ (os : Os) {Real Int : Type 0} (printed : DataT Real Int → Bytes)
    (l : Layout (DataT Real Int)) (garbage : Bytes) where
  unfoldable pub cb : SubCallback os.World
  cb m = do s ← lift (unpack l garbage m); effect (os.print_line (printed s))

  -- The rounds of the publisher that are left, from the `i`-th; `value i` has the fields 1.2 and i.
  unfoldable pub publish_all :
      (ℕ → DataT Real Int) → Publisher (udp os) → ℕ → ℕ → M os.World (Unit {0})
  publish_all value p i zero = ret tt
  publish_all value p i (suc n) = do
    let rest = publish_all value p (suc i) n
    publish (udp os) (pack l (value i)) p
    rest

  -- `pub()`
  unfoldable pub publisher :
      Bytes → (ℕ → DataT Real Int) → os.World → Outcome (Unit {0}) × Sock os.World
  unfolding publish_all
  publisher host value w = destructs os (
      (do
        addr ←
            lift (inet_sockaddr os.net (codes "udp://" ++ (host ++ (codes ":" ++ to_string port))))
        constructs os
        publish_all value (register_addr (udp os) addr (record { clientaddrs = [] })) 0 max_loop)
        (new_socket os w))

  -- The subscriber's object after `register_cb(cb)`.
  unfoldable pub subscriber : Subscriber os.World
  subscriber = register_cb cb (new_subscriber l.size)

  unfoldable pub poll_all : ℕ → M os.World (Unit {0})
  unfolding subscriber
  poll_all zero = ret tt
  poll_all (suc n) = do let rest = poll_all n; once (udp os) subscriber; rest

  -- `sub()`
  unfoldable pub subscribes : os.World → Outcome (Unit {0}) × Sock os.World
  unfolding poll_all
  subscribes w = destructs os (
      (do constructs os; bind os (codes "udp://*:" ++ to_string port); poll_all max_loop)
        (new_socket os w))
