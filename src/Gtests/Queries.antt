-- ===== src/Gtests/Queries.antt =====
-- gtests/test_rr.cpp: a requester that compares each reply with the double of its request, and a
-- replier that computes it, over UDP and over Unix sockets. The numbers of C++'s `int`, their double
-- and the memory layout of `request_t` are parameters. The threads and the sleep of the tests' bodies
-- are left out, and `test_data` stands for its first LOOP elements.
pub mod Passes
pub mod Runs
use marko_cpp.Prelude.{
  pos, ℕ, zero, suc, Bool, true, false, Bytes, codes, List, [], ◌∷◌, ◌++◌, length, ◌==◌,
  if◌then◌else◌,
}
use marko_cpp.Prelude.Decimal.{to_string}
use marko_cpp.Outcome.{Outcome}
use marko_cpp.Sockaddr.{inet_sockaddr, unix_sockaddr}
use marko_cpp.Os.{Os}
use marko_cpp.Machine.{Sock, M, ◌>>=◌, ◌>>◌, ret, lift, effect}
use marko_cpp.Socket.{new_socket, bind}
use marko_cpp.SocketUdp.{constructs, destructs}
use marko_cpp.SocketUnix.{new_unix}
use marko_cpp.Time.{msleep}
use marko_cpp.Transport.{Transport, udp, unix}
use marko_cpp.Message.{Layout, pack, unpack}
use marko_cpp.RequestReply.{Reply, new_reply, register_cb, once, new_request, request}
use marko_cpp.Gtests.{Harness}

abbrev pub port : ℕ
port = 9999

abbrev pub rounds : ℕ
rounds = 5

abbrev pub udpbind : Bytes
udpbind = codes "udp://*:" ++ to_string port

abbrev pub udpaddr : Bytes
udpaddr = codes "udp://127.0.0.1:" ++ to_string port

abbrev pub unix_path : Bytes
unix_path = codes "unix://./unix.rr.uds"

abbrev pub unix2_path : Bytes
unix2_path = codes "unix://./unix.rr2.uds"

-- `response_t` is the same type.
pub record RequestT (Int : Type 0) : Type 0 where
  pub a : Int

module _ (os : Os) (h : Harness os) {Int : Type 0} (twice : Int → Int) (eq : Int → Int → Bool)
    (l : Layout (RequestT Int)) (garbage : Bytes) where
  unfoldable pub cb : Bytes → M os.World Bytes
  cb m = do s ← lift (unpack l garbage m); ret (pack l (record { a = twice s.a }))

  -- One round of the requester. Only the one over Unix sockets compares the size of the reply too.
  unfoldable pub ask_one :
      (t : Transport os.World) → Bool → t.Addr → RequestT Int → M os.World (Unit {0})
  unfolding msleep
  ask_one t sizes addr d = do
    rp ← request t (new_request l.size) (pack l d) addr
    resp ← lift (unpack l garbage rp)
    effect (h.expect (eq resp.a (twice d.a)))
    effect (if sizes then h.expect (length rp == l.size) else (λ w. w))
    effect (h.nap (msleep (pos 1)))

  -- The rounds for what is left of the test data.
  unfoldable pub ask_data :
      (t : Transport os.World) → Bool → t.Addr → List (RequestT Int) → M os.World (Unit {0})
  unfolding ask_one
  ask_data t sizes addr [] = ret tt
  ask_data t sizes addr (d ∷ ds) = do
    let rest = ask_data t sizes addr ds
    ask_one t sizes addr d
    rest

  unfoldable pub req_thread : List (RequestT Int) → os.World → Outcome (Unit {0}) × Sock os.World
  unfolding ask_data
  req_thread test_data w = destructs os (
      (do
        addr ← lift (inet_sockaddr os.net udpaddr)
        constructs os
        ask_data (udp os) false addr test_data)
        (new_socket os w))

  unfoldable pub req_thread_un : List (RequestT Int) → os.World → Outcome (Unit {0}) × Sock os.World
  unfolding ask_data
  req_thread_un test_data w = destructs os (
      (do
        addr ← lift (unix_sockaddr os.net unix_path)
        (λ s. new_unix os s.world)
        bind os unix2_path
        ask_data (unix os) true addr test_data)
        (new_socket os w))

  unfoldable pub replier : Reply os.World
  replier = register_cb cb (new_reply l.size)

  unfoldable pub answer_all : Transport os.World → ℕ → M os.World (Unit {0})
  unfolding replier
  answer_all t zero = ret tt
  answer_all t (suc n) = do let rest = answer_all t n; once t replier; rest

  unfoldable pub rep_thread : os.World → Outcome (Unit {0}) × Sock os.World
  unfolding answer_all
  rep_thread w =
      destructs os
        ((do constructs os; bind os udpbind; answer_all (udp os) rounds) (new_socket os w))

  unfoldable pub rep_thread_un : os.World → Outcome (Unit {0}) × Sock os.World
  unfolding answer_all
  rep_thread_un w = destructs os (
      (do (λ s. new_unix os s.world); bind os unix_path; answer_all (unix os) rounds)
        (new_socket os w))
