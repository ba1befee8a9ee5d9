-- ===== src/Examples/Bc.antt =====
-- examples/bc.cpp: a server that broadcasts a subscription and a client that prints what it gets. The
-- threads and the sleep of `main` are left out.
pub mod Programs
pub mod Together
use marko_cpp.Prelude.{true, ℕ, zero, suc, Bytes, codes, ◌++◌}
use marko_cpp.Prelude.Decimal.{to_string}
use marko_cpp.Outcome.{Outcome}
use marko_cpp.Sockaddr.{InetAddr}
use marko_cpp.Os.{Os}
use marko_cpp.Machine.{Sock, M, ◌>>=◌, ◌>>◌, ret, lift, effect}
use marko_cpp.Socket.{new_socket, bind, reuse_socket}
use marko_cpp.SocketUdp.{constructs, destructs, recv}
use marko_cpp.SocketBc.{new_bc, cast}
use marko_cpp.Message.{Subscription, subscribe, pack, unpack, msg2string}
use marko_cpp.Message.Memory.{subscription}

abbrev pub port : ℕ
port = 11311

abbrev pub rounds : ℕ
rounds = 5

-- `subscription_t ss{69, SUBSCRIBE}`
abbrev pub ss : Subscription
ss = record { topic = 69; status = subscribe }

module _ (os : Os) where
  -- The rounds of the server that are left.
  unfoldable pub cast_all : InetAddr → ℕ → M os.World (Unit {0})
  cast_all bc_addr zero = ret tt
  cast_all bc_addr (suc n) = do
    let rest = cast_all bc_addr n
    num ← cast os bc_addr (pack subscription ss)
    effect (os.print_line (codes "cast: " ++ msg2string (pack subscription ss)))
    rest

  unfoldable pub server : os.World → Outcome (Unit {0}) × Sock os.World
  unfolding cast_all
  server w =
      destructs os
        ((do bc_addr ← (λ s. new_bc os port s.world); cast_all bc_addr rounds) (new_socket os w))

  -- The rounds of the client that are left; `garbage` is the memory of `unpack`'s result.
  unfoldable pub receive_all : Bytes → ℕ → M os.World (Unit {0})
  receive_all garbage zero = ret tt
  receive_all garbage (suc n) = do
    let rest = receive_all garbage n
    m ← recv os subscription.size 0
    msg ← lift (unpack subscription garbage m)
    effect (os.print_line (to_string msg.topic ++ (codes " " ++ to_string msg.status)))
    rest

  unfoldable pub client : Bytes → os.World → Outcome (Unit {0}) × Sock os.World
  unfolding receive_all
  client garbage w = destructs os (
      (do
        constructs os
        reuse_socket os true
        bind os (codes "udp://*:" ++ to_string port)
        receive_all garbage rounds)
        (new_socket os w))
