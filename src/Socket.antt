-- ===== src/Socket.antt =====
-- src/include/marko/socket.hpp: the class Socket.
pub mod Failure
pub mod Descriptor
pub mod Closed
pub mod Life
pub mod Addresses
pub mod Paths
pub mod Account
use marko_cpp.Prelude.{
  ℕ, Bytes, codes, List, [], ◌∷◌, ◌++◌, Bool, true, false, ◌||◌, ◌&&◌, ltb, eq_bytes, if◌then◌else◌,
  ℤ, pos, negsuc, is_neg, eq_int,
}
use marko_cpp.Outcome.{Outcome, returned, runtime_error}
use marko_cpp.Regex.{Smatch, regex_search, proto}
use marko_cpp.Sockaddr.{InetAddr, UnixAddr, inet_sockaddr, unix_sockaddr, inet2string}
use marko_cpp.Time.{Timeval, get_time}
use marko_cpp.Os.{
  Os, SockType, Level, sol_socket, OptName, so_rcvtimeo, so_reuseport, so_reuseaddr, OptVal,
  int_val, time_val, Address, inet_at, unix_at,
}
use marko_cpp.Machine.{Sock, M, ◌>>=◌, ◌>>◌, ret, throw, bad, lift, sys, effect, inspect}

-- SOCKET_ERR and SOCKET_TIMEOUT
abbrev pub socket_err : ℤ
socket_err = negsuc 0

abbrev pub socket_timeout : ℤ
socket_timeout = negsuc 0

pub data ConType : Type 0 where
  connects binds : ConType

-- A `fd_set` has room for the descriptors below FD_SETSIZE.
abbrev pub in_fd_set : ℤ → Bool
in_fd_set (pos n) = ltb n 1024
in_fd_set (negsuc n) = false

-- `timeval_t tv{0,1000}`
abbrev pub one_msec : Timeval
one_msec = record { tv_sec = pos 0; tv_usec = pos 1000 }

module _ (os : Os) where
  -- The constructor makes no descriptor.
  unfoldable pub new_socket : os.World → Sock os.World
  new_socket w = record { fd = socket_err; world = w }

  unfoldable pub close : M os.World (Unit {0})
  close s =
      if eq_int s.fd socket_err
      then (returned tt, s)
      else (returned tt, record { fd = socket_err; world = os.close_fd s.fd s.world })

  unfoldable pub guard : ℤ → Bytes → M os.World (Unit {0})
  guard err msg =
      if is_neg err
      then (do
        close
        text ← inspect os.error_text
        effect (os.print_line (msg ++ text))
        again ← inspect os.error_text
        throw (runtime_error (msg ++ again)))
      else ret tt

  -- `int err = call(socket_fd, …); guard(err, msg);`
  unfoldable pub guarded : (ℤ → os.World → ℤ × os.World) → Bytes → M os.World (Unit {0})
  guarded call msg = do err ← sys call; guard err msg

  unfoldable pub settimeout : ℤ → M os.World (Unit {0})
  settimeout timeout_msec =
      guarded (λ fd. os.set_option fd sol_socket so_rcvtimeo (time_val (get_time timeout_msec)))
        (codes "settimeout(): ")

  unfoldable pub setnonblocking : Bool → M os.World (Unit {0})
  setnonblocking val =
      guarded (λ fd. os.ioctl_nonblocking fd (if val then pos 1 else pos 0))
        (codes "setnonblocking(): ")

  unfoldable pub setsockopt : Level → OptName → ℤ → M os.World (Unit {0})
  setsockopt level name val =
      guarded (λ fd. os.set_option fd level name (int_val val)) (codes "setsockopt(): ")

  unfoldable pub getsockname : M os.World Bytes
  getsockname = do
    r ← sys os.name_of_socket
    guard r.0 (codes "getsockname(): ")
    ret (inet2string os.net r.1)

  unfoldable pub available : M os.World Bool
  available s =
      if in_fd_set s.fd
      then (do
        r ← sys (λ fd. os.select_read fd one_msec)
        guard r.0 (codes "Socket::available select issue")
        ret r.1)
          s
      else bad s

  unfoldable pub available_for_write : M os.World Bool
  available_for_write s =
      if in_fd_set s.fd
      then (do
        r ← sys (λ fd. os.select_write fd one_msec)
        guard r.0 (codes "Socket::availableForWrite select issue")
        ret r.1)
          s
      else bad s

  unfoldable pub reuse_socket : Bool → M os.World (Unit {0})
  reuse_socket enable =
      if enable
      then (do
        setsockopt sol_socket so_reuseport (pos 1)
        setsockopt sol_socket so_reuseaddr (pos 1))
      else (do
        setsockopt sol_socket so_reuseport (pos 0)
        setsockopt sol_socket so_reuseaddr (pos 0))

  unfoldable pub make_socket : ℕ → SockType → ℕ → M os.World (Unit {0})
  make_socket family type proto s =
      (do guard (os.socket family type proto s.world).0 (codes "Socket::makeSocket() failed: "))
        (record {
          fd = (os.socket family type proto s.world).0;
          world = (os.socket family type proto s.world).1;
        })

  -- The branch for `unix`: the path is unlinked whether the socket connects or binds.
  unfoldable pub set_unix : Bytes → Bytes → ConType → M os.World (Unit {0})
  set_unix address path connects = do
    addr ← lift (unix_sockaddr os.net address)
    effect (os.unlink path)
    guarded (λ fd. os.connect_to fd (unix_at addr)) (codes "Socket UDS couldn't connect: ")
  set_unix address path binds = do
    addr ← lift (unix_sockaddr os.net address)
    effect (os.unlink path)
    guarded (λ fd. os.bind_to fd (unix_at addr)) (codes "Socket UDS couldn't bind: ")

  unfoldable pub set_inet : Bytes → ConType → M os.World (Unit {0})
  set_inet address connects = do
    addr ← lift (inet_sockaddr os.net address)
    guarded (λ fd. os.connect_to fd (inet_at addr)) (codes "Socket::bind() failed: ")
  set_inet address binds = do
    addr ← lift (inet_sockaddr os.net address)
    guarded (λ fd. os.bind_to fd (inet_at addr)) (codes "Socket::bind() failed: ")

  unfoldable pub set_matched : Bytes → ConType → Smatch → M os.World (Unit {0})
  set_matched address type [] = guard (negsuc 0) (codes "Socket UDS address invalide: " ++ address)
  set_matched address type (whole ∷ protocol ∷ path ∷ []) =
      if eq_bytes protocol (codes "unix")
      then set_unix address path type
      else if eq_bytes protocol (codes "tcp") || eq_bytes protocol (codes "udp")
      then set_inet address type
      else ret tt
  set_matched address type _ = ret tt

  unfoldable pub set_socket : Bytes → ConType → M os.World (Unit {0})
  set_socket address type = set_matched address type (regex_search address proto)

  unfoldable pub bind : Bytes → M os.World (Unit {0})
  unfolding set_socket
  bind address = set_socket address binds

  unfoldable pub connect : Bytes → M os.World (Unit {0})
  unfolding set_socket
  connect address = set_socket address connects

-- The public methods, which a user calls on an object; `shuts` is `close()`.
pub data Call : Type 0 where
  sets_timeout : ℤ → Call
  sets_nonblocking : Bool → Call
  sets_option : Level → OptName → ℤ → Call
  gets_name asks_available asks_available_for_write shuts : Call
  reuses : Bool → Call
  binds_to connects_to : Bytes → Call

module _ (os : Os) where
  -- One call; a result is not kept.
  unfoldable pub call : Call → M os.World (Unit {0})
  unfolding bind connect
  call (sets_timeout t) = settimeout os t
  call (sets_nonblocking b) = setnonblocking os b
  call (sets_option level name val) = setsockopt os level name val
  call gets_name = getsockname os >>= λ _. ret tt
  call asks_available = available os >>= λ _. ret tt
  call asks_available_for_write = available_for_write os >>= λ _. ret tt
  call shuts = close os
  call (reuses b) = reuse_socket os b
  call (binds_to address) = bind os address
  call (connects_to address) = connect os address
