-- ===== src/Tests/Samples.antt =====
-- A libc and an operating system that compute, for the runs in this tree: a network of pending
-- datagrams between a client on descriptor 1 and a server on descriptor 2, in which a connect always
-- fails and nothing arrives at a Unix socket.
use marko_cpp.Prelude.{
  refl, Bytes, codes, List, [], ◌∷◌, ◌++◌, Bool, true, false, length, replicate, ℤ, pos, negsuc,
  eq_int, some,
}
use marko_cpp.Sockaddr.{Inet, InetAddr, UnixAddr, af_inet, htons, sun_path_size}
use marko_cpp.Os.{Os, Received, Address}

abbrev pub home_text : Bytes
home_text = codes "127.0.0.1"

abbrev pub home : Bytes
home = 127 ∷ 0 ∷ 0 ∷ 1 ∷ []

-- It knows one address.
abbrev pub net : Inet
net = record {
  inet_addr = λ s. home;
  inet_ntop = λ ip. home_text;
  leftover = replicate 94 7;
  length-leftover = refl;
}

pub data Datagram : Type 0 where
  for_server for_client : Bytes → Datagram

-- The datagrams on their way, and the descriptors that were closed.
pub record Net : Type 0 where
  pub pending : List Datagram
  pub closed : List ℤ

abbrev pub client_fd : ℤ
client_fd = pos 1

abbrev pub server_fd : ℤ
server_fd = pos 2

abbrev pub client_addr : InetAddr
client_addr = record { sin_family = af_inet; sin_port = htons 9001; sin_addr = home }

abbrev pub server_addr : InetAddr
server_addr = record { sin_family = af_inet; sin_port = htons 9000; sin_addr = home }

-- What the server computes, if nothing else is said.
abbrev pub reply_of : Bytes → Bytes
reply_of m = b'!' ∷ m

abbrev pub is_server : ℤ → Bool
is_server fd = eq_int fd server_fd

abbrev pub nothing : Received InetAddr
nothing = record { num = negsuc 0; written = []; from = server_addr }

-- What a datagram that arrives whole is for the receiver.
abbrev pub whole : Bytes → InetAddr → Received InetAddr
whole payload from = record { num = pos (length payload); written = payload; from = from }

-- A receive call, by the server or by the client. The client's waits: where a datagram for the
-- server is pending, the server has answered it before the client goes on.
abbrev pub receive : (Bytes → Bytes) → Bool → List Datagram → Received InetAddr × List Datagram
receive reply by_server [] = (nothing, [])
receive reply true (for_server payload ∷ rest) = (whole payload client_addr, rest)
receive reply true (for_client payload ∷ rest) = (nothing, for_client payload ∷ rest)
receive reply false (for_server payload ∷ rest) = (whole (reply payload) server_addr, rest)
receive reply false (for_client payload ∷ rest) = (whole payload server_addr, rest)

abbrev pub datagram : Bool → Bytes → Datagram
datagram true payload = for_client payload
datagram false payload = for_server payload

abbrev pub no_unix_sender : UnixAddr
no_unix_sender = record { sun_family = 0; sun_path = replicate sun_path_size 0 }

-- With what the server computes.
abbrev pub os_with : (Bytes → Bytes) → Os
os_with reply = record {
  World = Net;
  net = net;
  socket = λ family type proto w. (client_fd, w);
  close_fd = λ fd w. record w { closed = fd ∷ w.closed };
  set_option = λ fd level name val w. (pos 0, w);
  ioctl_nonblocking = λ fd on w. (pos 0, w);
  bind_to = λ fd a w. (pos 0, w);
  connect_to = λ fd a w. (negsuc 0, w);
  unlink = λ path w. w;
  recvfrom_in = λ fd size flags w. (
    (receive reply (is_server fd) w.pending).0,
    record w { pending = (receive reply (is_server fd) w.pending).1 },
  );
  recvfrom_un =
      λ fd size flags w. (record { num = negsuc 0; written = []; from = no_unix_sender }, w);
  send_to = λ fd msg flags a w.
      (pos (length msg), record w { pending = w.pending ++ datagram (is_server fd) msg ∷ [] });
  select_read = λ fd t w. ((pos 1, true), w);
  select_write = λ fd t w. ((pos 1, true), w);
  get_int = λ fd level name w. (some (pos 2), w);
  get_byte = λ fd level name w. (some 64, w);
  get_addr = λ fd level name w. (some home, w);
  name_of_socket = λ fd w. ((pos 0, client_addr), w);
  error_text = λ w. codes "No such file or directory";
  print_line = λ line w. w;
}

abbrev pub os : Os
os = os_with reply_of

-- A network with these datagrams pending.
abbrev pub network : List Datagram → Net
network pending = record { pending = pending; closed = [] }

-- A system whose sockets only receive and send, and which prints, in this way.
abbrev pub os_of :
    {W : Type 0}
    → (ℤ → W → Received InetAddr × W)
    → (ℤ → Bytes → Address → W → W)
    → (Bytes → W → W)
    → Os
os_of {W} take put say = record {
  World = W;
  net = net;
  socket = λ family type proto w. (client_fd, w);
  close_fd = λ fd w. w;
  set_option = λ fd level name val w. (pos 0, w);
  ioctl_nonblocking = λ fd on w. (pos 0, w);
  bind_to = λ fd a w. (pos 0, w);
  connect_to = λ fd a w. (pos 0, w);
  unlink = λ path w. w;
  recvfrom_in = λ fd size flags. take fd;
  recvfrom_un =
      λ fd size flags w. (record { num = negsuc 0; written = []; from = no_unix_sender }, w);
  send_to = λ fd msg flags a w. (pos (length msg), put fd msg a w);
  select_read = λ fd t w. ((pos 1, true), w);
  select_write = λ fd t w. ((pos 1, true), w);
  get_int = λ fd level name w. (some (pos 2), w);
  get_byte = λ fd level name w. (some 64, w);
  get_addr = λ fd level name w. (some home, w);
  name_of_socket = λ fd w. ((pos 0, client_addr), w);
  error_text = λ w. [];
  print_line = say;
}
