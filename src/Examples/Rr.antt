-- ===== src/Examples/Rr.antt =====
-- examples/rr.cpp: a requester and a replier over UDP. The numbers of C++'s `double` and `int`, what
-- `cout` prints of them and the memory layout of the two messages are parameters. The replier's
-- binding and the prints of SocketInfo are the library's calls in `serve` and `ask_all`.
pub mod Replies
pub mod Session
use marko_cpp.Prelude.{ℕ, zero, suc, Bytes, codes, ◌++◌, List, [], ◌∷◌, ℤ, pos, Option, some}
use marko_cpp.Prelude.Decimal.{to_string}
use marko_cpp.Outcome.{Outcome, returned}
use marko_cpp.Sockaddr.{InetAddr, inet_sockaddr, inet2string}
use marko_cpp.Os.{Os}
use marko_cpp.Machine.{Sock, M, continue, ◌>>=◌, ◌>>◌, ret, lift, effect}
use marko_cpp.Socket.{new_socket, bind}
use marko_cpp.SocketUdp.{constructs, destructs}
use marko_cpp.SocketInfo.{info}
use marko_cpp.Examples.Choice.{Run, run, pick, with_host}
use marko_cpp.Transport.{udp}
use marko_cpp.Message.{Layout, pack, unpack}
use marko_cpp.RequestReply.{Reply, new_reply, register_cb, once, new_request, request}

pub record RequestT (Real Int : Type 0) : Type 0 where
  pub a : Real
  pub b : Int

pub record ResponseT (Int : Type 0) : Type 0 where
  pub a : Int

abbrev pub port : ℕ
port = 9999

abbrev pub rounds : ℕ
rounds = 5

module _ (os : Os) {Real Int : Type 0} (shown : RequestT Real Int → Bytes) (digits : Int → Bytes)
    (lq : Layout (RequestT Real Int)) (lr : Layout (ResponseT Int))
    (garbage_q garbage_r : Bytes) where
  unfoldable pub cb : Bytes → M os.World Bytes
  cb m = do
    s ← lift (unpack lq garbage_q m)
    effect (os.print_line (codes "cb: " ++ shown s))
    ret (pack lr (record { a = s.b }))

  -- One round of the requester.
  unfoldable pub ask : RequestT Real Int → InetAddr → M os.World (ResponseT Int)
  ask m addr = do
    rp ← request (udp os) (new_request lr.size) (pack lq m) addr
    resp ← lift (unpack lr garbage_r rp)
    effect (os.print_line (codes "resp: " ++ digits resp.a))
    ret resp

  print_all : List Bytes → M os.World (Unit {0})
  print_all [] = ret tt
  print_all (l ∷ lines) = do let rest = print_all lines; effect (os.print_line l); rest

  -- The rounds that are left, from the `i`-th; `times i` is 1.2345*double(i) and i.
  unfoldable pub ask_all : (ℕ → Real × Int) → InetAddr → ℕ → ℕ → M os.World (Unit {0})
  ask_all times addr i zero = ret tt
  ask_all times addr i (suc n) = do
    let rest = ask_all times addr (suc i) n
    resp ← ask (record { a = (times i).0; b = (times i).1 }) addr
    rest

  -- `request()`, with `HOST`.
  unfoldable pub requester :
      Bytes → (ℕ → Real × Int) → os.World → Outcome (Unit {0}) × Sock os.World
  unfolding ask_all print_all
  requester host times w = destructs os (
      (do
        addr ←
            lift (inet_sockaddr os.net (codes "udp://" ++ (host ++ (codes ":" ++ to_string port))))
        effect (os.print_line (codes "Request connecting to: " ++ inet2string os.net addr))
        constructs os
        lines ← info os (codes "Connect")
        print_all lines
        ask_all times addr 0 rounds)
        (new_socket os w))

  -- The replier's object.
  unfoldable pub replier : Reply os.World
  replier = register_cb cb (new_reply lq.size)

  unfoldable pub answer_all : ℕ → M os.World (Unit {0})
  unfolding replier
  answer_all zero = ret tt
  answer_all (suc n) = do let rest = answer_all n; once (udp os) replier; rest

  -- `reply()`, with `HOST`.
  unfoldable pub serve : Bytes → os.World → Outcome (Unit {0}) × Sock os.World
  unfolding answer_all print_all
  serve host w = destructs os (
      (do
        effect
            (os.print_line (codes "Reply binding to: " ++ (host ++ (codes ":" ++ to_string port))))
        constructs os
        bind os (codes "udp://*:" ++ to_string port)
        lines ← info os (codes "Bind")
        print_all lines
        answer_all rounds)
        (new_socket os w))

  unfoldable pub main : Bytes → (ℕ → Real × Int) → List Bytes → Run os
  main host times =
      pick os (codes "Usage: ./rr reply|request") (codes "reply") (λ w. run (serve host w))
        (codes "request") (λ w. run (requester host times w))

  unfoldable pub process : (ℕ → Real × Int) → List Bytes → os.World → Outcome (Outcome ℕ × os.World)
  process times args = with_host os (λ host. main host times args)
