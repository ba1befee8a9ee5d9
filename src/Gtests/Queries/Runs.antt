-- ===== src/Gtests/Queries/Runs.antt =====
-- The requesters of gtests/test_rr.cpp as whole functions: the address, the socket, the rounds, and
-- the destructor.
use marko_cpp.Prelude.{
  true, false, Bool, ap, ℕ, ◌<◌, Bytes, codes, List, [], length, ℤ, pos, ◌≡◌, refl, arith,
}
use marko_cpp.Outcome.{returned}
use marko_cpp.Regex.Runs.{InClass-all_in}
use marko_cpp.Regex.{host_class, path_class, in_class}
use marko_cpp.Sockaddr.{
  UnixAddr, InetAddr, af_inet, af_unix, htons, ip_of, inet_sockaddr, unix_sockaddr,
}
use marko_cpp.Sockaddr.Inets.{inet_sockaddr_port}
use marko_cpp.Sockaddr.Paths.{unix_sockaddr_whole}
use marko_cpp.Os.{Os, sock_dgram, unix_at}
use marko_cpp.Machine.{Sock}
use marko_cpp.Socket.{bind, new_socket, make_socket, guard, guarded, close, socket_err}
use marko_cpp.Socket.Paths.{named_path, bind-connect_unix}
use marko_cpp.SocketUdp.{constructs, destructs}
use marko_cpp.SocketUnix.{new_unix}
use marko_cpp.Loop.Queue.{at_world}
use marko_cpp.Transport.{udp, unix}
use marko_cpp.Transport.Datagrams.{udp_datagrams, unix_datagrams}
use marko_cpp.Message.{Layout}
use marko_cpp.Gtests.{Harness}
use marko_cpp.Gtests.Queries.{
  RequestT, port, udpaddr, unix_path, unix2_path, req_thread, req_thread_un,
}
use marko_cpp.Gtests.Queries.Passes.{Line, answers, ask_data-passes}

abbrev pub rr_path : Bytes
rr_path = codes "./unix.rr.uds"

abbrev pub rr2_path : Bytes
rr2_path = codes "./unix.rr2.uds"

bind_unix2 :
    (os : Os) (s : Sock os.World)
    → bind os unix2_path s
      ≡ guarded os
          (λ fd. os.bind_to fd (unix_at (named_path os.net rr2_path)))
          (codes "Socket UDS couldn't bind: ")
          (record s { world = os.unlink rr2_path s.world })
unfolding in_class
bind_unix2 os s =
    (bind-connect_unix os rr2_path s (λ e. cc) (InClass-all_in path_class rr2_path refl)).0

module _ (os : Os) (h : Harness os) {Int : Type 0} (twice : Int → Int) (eq : Int → Int → Bool)
    (eq_same : (n : Int) → eq n n ≡ true) (l : Layout (RequestT Int)) (garbage : Bytes)
    (full : length garbage ≡ l.size) (some_size : 0 < l.size) (n : ℕ) (s : ℤ) where
  abbrev pub rr_addr : InetAddr
  rr_addr = record {
    sin_family = af_inet;
    sin_port = htons port;
    sin_addr = os.net.inet_addr (codes "127.0.0.1");
  }

  -- The replier's round over UDP and over Unix sockets.
  abbrev pub udp_answers : InetAddr → os.World → os.World
  udp_answers client =
      answers os h twice eq eq_same l garbage full some_size (udp os) (udp_datagrams os) rr_addr
        client (pos n) s

  abbrev pub unix_answers : UnixAddr → os.World → os.World
  unix_answers client =
      answers os h twice eq eq_same l garbage full some_size (unix os) (unix_datagrams os)
        (named_path os.net rr_path) client (pos n) s

  -- The whole requester over UDP, where the system gives it a socket: it ends normally, no test has
  -- failed, nothing waits, and its socket is closed.
  pub req_thread-passes :
      (client : InetAddr)
      (line : Line os h
        (udp os)
        (udp_datagrams os)
        l.size
        (pos n)
        s
        rr_addr
        client
        (udp_answers client))
      (test_data : List (RequestT Int)) (w w1 : os.World)
      → length (os.net.inet_addr (codes "127.0.0.1")) ≡ 4
      → os.socket af_inet sock_dgram 0 w ≡ (pos n, w1)
      → line.channel.requests w1 ≡ []
      → line.channel.inbox w1 ≡ []
      → (v : os.World) × (req_thread os h twice eq l garbage test_data w
          ≡ (returned tt, record { fd = socket_err; world = os.close_fd (pos n) v }))
        × (line.channel.requests v ≡ [])
        × (line.channel.inbox v ≡ [])
        × (line.failures v ≡ line.failures w1)
  unfolding req_thread constructs destructs close make_socket guard new_socket in_class ip_of
  req_thread-passes client line test_data w w1 four opened none_asked none_told =
      let parsed : inet_sockaddr os.net udpaddr ≡ returned rr_addr =
        inet_sockaddr_port os.net (codes "127.0.0.1") port (λ e. cc)
          (InClass-all_in host_class (codes "127.0.0.1") refl) four (omega arith) in
      let (v, ran, a, b, f) =
        ask_data-passes os h twice eq eq_same l garbage full some_size (udp os) (udp_datagrams os)
          rr_addr client (pos n) s line false test_data w1 none_asked none_told in
      (v, rw (parsed, opened) (ap (destructs os) ran), a, b, f)

  -- The whole requester over Unix sockets, for messages of at least a byte, results with memory of
  -- their size and a comparison that holds of equal numbers: where the system gives it a socket,
  -- binds it to ./unix.rr2.uds after that path was unlinked, and nothing waits then, on a network
  -- without losses to a replier at ./unix.rr.uds that makes its round while the requester waits, it
  -- ends normally for any test data, no test has failed, nothing waits, and its socket is closed.
  pub req_thread_un-passes :
      (client : UnixAddr)
      (line : Line os h
        (unix os)
        (unix_datagrams os)
        l.size
        (pos n)
        s
        (named_path os.net rr_path)
        client
        (unix_answers client))
      (test_data : List (RequestT Int)) (k : ℕ) (w w1 w2 : os.World)
      → os.socket af_unix sock_dgram 0 w ≡ (pos n, w1)
      → os.bind_to (pos n) (unix_at (named_path os.net rr2_path)) (os.unlink rr2_path w1)
        ≡ (pos k, w2)
      → line.channel.requests w2 ≡ []
      → line.channel.inbox w2 ≡ []
      → (v : os.World) × (req_thread_un os h twice eq l garbage test_data w
          ≡ (returned tt, record { fd = socket_err; world = os.close_fd (pos n) v }))
        × (line.channel.requests v ≡ [])
        × (line.channel.inbox v ≡ [])
        × (line.failures v ≡ line.failures w2)
  unfolding req_thread_un new_unix destructs close make_socket guard guarded new_socket in_class
  req_thread_un-passes client line test_data k w w1 w2 opened bound none_asked none_told =
      let parsed : unix_sockaddr os.net unix_path ≡ returned (named_path os.net rr_path) =
        unix_sockaddr_whole os.net rr_path (λ e. cc) (InClass-all_in path_class rr_path refl) in
      let (v, ran, a, b, f) =
        ask_data-passes os h twice eq eq_same l garbage full some_size (unix os) (unix_datagrams os)
          (named_path os.net rr_path) client (pos n) s line true test_data w2 none_asked
          none_told in
      (
        v,
        rw (parsed, opened, bind_unix2 os (at_world (pos n) w1), bound) (ap (destructs os) ran),
        a,
        b,
        f,
      )
