-- ===== src/Examples/Simple.antt =====
-- examples/simple.cpp: a publisher and a subscriber on plain UDP sockets, without the library. `exit`
-- ends the program with the state at that point.
pub mod Rounds
use marko_cpp.Prelude.{
  List, ℕ, zero, suc, Bytes, codes, ◌++◌, replicate, overwrite, length, if◌then◌else◌, ℤ, pos,
  is_neg, Option, none, some,
}
use marko_cpp.Prelude.Decimal.{to_string}
use marko_cpp.Outcome.{Outcome, returned}
use marko_cpp.Sockaddr.{InetAddr, af_inet, inaddr_any, htons, ntohs, c_string}
use marko_cpp.Os.{
  Os, sock_dgram, sol_socket, ipproto_ip, so_acceptconn, so_reuseaddr, so_reuseport,
  ip_multicast_loop, Level, OptName, int_val, inet_at,
}
use marko_cpp.Machine.{Sock, M, ◌>>=◌, ◌>>◌, ret, lift, sys, effect}
use marko_cpp.Examples.Choice.{Run, pick, ends}
use marko_cpp.SocketInfo.{print_int, after_call, read, yes_or}

abbrev pub max_buffer_size : ℕ
max_buffer_size = 32

abbrev pub host : Bytes
host = codes "127.0.0.1"

abbrev pub port : ℕ
port = 6666

abbrev pub max_loop : ℕ
max_loop = 5

-- How a function ended: by `exit(EXIT_FAILURE)`, or at its end.
pub data Ran : Type 0 where
  exited finished : Ran

-- `perror` is libc's.
module _ (os : Os) (perror : Bytes → os.World → os.World) where
  abbrev pub get_udp_addr : Bytes → ℕ → InetAddr
  get_udp_addr ip port = record {
    sin_family = af_inet;
    sin_port = htons port;
    sin_addr = os.net.inet_addr ip;
  }

  abbrev pub any_udp_addr : ℕ → InetAddr
  any_udp_addr port = record { sin_family = af_inet; sin_port = htons port; sin_addr = inaddr_any }

  abbrev pub get_ip_port : InetAddr → Bytes
  get_ip_port addr =
      os.net.inet_ntop addr.sin_addr ++ (codes ":" ++ to_string (ntohs addr.sin_port))

  -- The result of the call is not looked at; the address starts as zeros.
  unfoldable pub getsockname : M os.World Bytes
  getsockname = do
    r ← sys os.name_of_socket
    ret (
        get_ip_port (
          if is_neg r.0
          then record { sin_family = 0; sin_port = replicate 2 0; sin_addr = replicate 4 0 }
          else r.1))

  abbrev pub say : Bytes → M os.World (Unit {0})
  say line = effect (os.print_line line)

  -- One option of `info`, in the variable that all of them share.
  unfoldable pub info_line : Level → OptName → Bytes → Bytes → Bytes → Option ℕ → M os.World ℕ
  info_line level name description on off old = do
    got ← sys (λ fd. os.get_byte fd level name)
    val ← lift (read (after_call got old))
    say (codes "  " ++ (description ++ (codes ": " ++ yes_or on off val)))
    ret val

  unfoldable pub info : M os.World (Unit {0})
  info = do
    hostinfo ← getsockname
    say (codes "Socket =====================================")
    say (codes "  bind/connect to: " ++ hostinfo)
    fd ← (λ s. ret s.fd s)
    say (codes "  fd: " ++ print_int fd)
    a ←
        info_line ipproto_ip ip_multicast_loop (codes "multicast loopback") (codes "enabled")
          (codes "disabled") none
    b ←
        info_line sol_socket so_acceptconn (codes "accept connections") (codes "enabled")
          (codes "disabled") (some a)
    c ←
        info_line sol_socket so_reuseaddr (codes "reuse addr") (codes "true") (codes "false")
          (some b)
    d ←
        info_line sol_socket so_reuseport (codes "reuse port") (codes "true") (codes "false")
          (some c)
    ret tt

  unfoldable pub fail : Bytes → M os.World Ran
  fail msg = do effect (perror msg); ret exited

  -- `close(sockfd)`; the variable keeps its number.
  unfoldable pub finish : M os.World Ran
  finish s = (returned finished, record s { world = os.close_fd s.fd s.world })

  -- The rounds that are left of the subscriber's loop, and its end. The buffer is printed as a C
  -- string.
  unfoldable pub receive_loop : ℕ → M os.World Ran
  unfolding fail finish
  receive_loop zero = finish
  receive_loop (suc n) = do
    let rest = receive_loop n
    r ← sys (λ fd. os.recvfrom_in fd max_buffer_size 0)
    if is_neg r.num then fail (codes "Error in receiving data") else (do
      text ← lift (c_string (overwrite r.written (replicate max_buffer_size 0)))
      say (codes "Received " ++ (text ++ (codes " from " ++ get_ip_port r.from)))
      rest)

  unfoldable pub subscribed : M os.World Ran
  unfolding receive_loop
  subscribed = do
    a ← sys (λ fd. os.set_option fd sol_socket so_reuseaddr (int_val (pos 1)))
    b ← sys (λ fd. os.set_option fd sol_socket so_reuseport (int_val (pos 1)))
    bound ← sys (λ fd. os.bind_to fd (inet_at (any_udp_addr port)))
    if is_neg bound then fail (codes "Binding failed") else (info >> receive_loop max_loop)

  -- `sub()`
  unfoldable pub sub : os.World → Outcome Ran × Sock os.World
  unfolding subscribed
  sub w =
      let r = os.socket af_inet sock_dgram 0 w in
      let s : Sock os.World = record { fd = r.0; world = r.1 } in
      (if is_neg r.0 then fail (codes "Failed to create socket") else subscribed) s

  -- The rounds that are left of the publisher's loop, and its end.
  unfoldable pub send_loop : ℕ → M os.World Ran
  unfolding fail finish
  send_loop zero = finish
  send_loop (suc n) = do
    let rest = send_loop n
    num ← sys (λ fd. os.send_to fd (codes "hello") 0 (inet_at (get_udp_addr host port)))
    if is_neg num
        then fail (codes "Error in sending data")
        else (do say (codes "Reply sent to client "); rest)

  -- `pub()`
  unfoldable pub publish : os.World → Outcome Ran × Sock os.World
  unfolding send_loop
  publish w =
      let r = os.socket af_inet sock_dgram 0 w in
      let s : Sock os.World = record { fd = r.0; world = r.1 } in
      (if is_neg r.0 then fail (codes "Failed to create socket") else (info >> send_loop max_loop))
        s

  -- `exit(EXIT_FAILURE)` or the end of `main`.
  abbrev pub status : Ran → ℕ
  status exited = 1
  status finished = 0

  unfoldable pub main : List Bytes → Run os
  main =
      pick os (codes "Usage: ./ps p|s") (codes "p") (λ w. ends status (publish w)) (codes "s")
        (λ w. ends status (sub w))
