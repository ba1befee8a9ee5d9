-- ===== src/Tests/Sockets.antt =====
-- The theorems on sockets, timeouts, signals and events, on an operating system that computes.
use marko_cpp.Prelude.{none, some, Option, ℕ, ◌%◌, codes, [], false, pos, ◌≡◌, ◌↔◌, refl, arith}
use marko_cpp.Outcome.{returned}
use marko_cpp.Regex.{in_class}
use marko_cpp.Os.{Os, OptName, so_type, so_reuseaddr, inet_at}
use marko_cpp.Machine.{Sock}
use marko_cpp.Socket.Paths.{named_path, bind-connect_unix}
use marko_cpp.Os.{unix_at}
use marko_cpp.Socket.{guarded, bind}
use marko_cpp.Regex.{path_class}
use marko_cpp.Regex.Runs.{InClass-all_in}
use marko_cpp.Socket.{call, connects_to, connect}
use marko_cpp.Socket.{bind, guarded}
use marko_cpp.Socket.Addresses.{bind-connect_inet}
use marko_cpp.Sockaddr.{af_inet, htons, ip_of, inaddr_any}
use marko_cpp.Prelude.{inl}
use marko_cpp.Socket.Failure.{Ends, call-Ends}
use marko_cpp.SocketUdp
use marko_cpp.SocketUdp.{received, new_udp}
use marko_cpp.SocketUdp.Laws.{sendto_lem}
use marko_cpp.Time.{get_time, micros, get_time_exact}
use marko_cpp.Signals.{Table, SignalFunc, sigint, enable, enable_once}
use marko_cpp.Tests.Samples.{net, Net, os, network, client_fd, server_addr}

abbrev open_client : Sock Net
open_client = record { fd = client_fd; world = network [] }

call-Ends_example : Ends client_fd (call os (connects_to (codes "udp://*:9000")) open_client)
call-Ends_example = call-Ends os (connects_to (codes "udp://*:9000")) open_client

sendto_lem_example : SocketUdp.sendto os (codes "hi") server_addr 0 open_client ≡ (
  returned (pos 2),
  record open_client {
    world = (os.send_to client_fd (codes "hi") 0 (inet_at server_addr) (network [])).1;
  },
)
sendto_lem_example = sendto_lem os (codes "hi") server_addr 0 open_client

get_time_exact_example : (micros (get_time (pos 2500)) ≡ pos 2500000) ↔ (2500 % 1000 ≡ 0)
get_time_exact_example = get_time_exact 2500

-- Handlers are named by numbers.
abbrev defaults : Table ℕ
defaults n = 0

abbrev unused : SignalFunc
unused = record { enabled = false }

enable_once_example :
    let after = enable unused 7 sigint defaults in
    enable after.1 8 15 after.2 ≡ (returned (pos 0), after.1, after.2)
enable_once_example = enable_once unused 7 8 sigint 15 defaults (unfold enable in refl)

bind-connect_inet_example :
    (bind os (codes "udp://*:9000") open_client
      ≡ guarded os
          (λ fd. os.bind_to fd (
            inet_at
              (record { sin_family = af_inet; sin_port = htons 9000; sin_addr = inaddr_any })))
          (codes "Socket::bind() failed: ")
          open_client)
    × (connect os (codes "udp://*:9000") open_client
        ≡ guarded os
            (λ fd. os.connect_to fd (
              inet_at
                (record { sin_family = af_inet; sin_port = htons 9000; sin_addr = inaddr_any })))
            (codes "Socket::bind() failed: ")
            open_client)
unfolding in_class ip_of
bind-connect_inet_example =
    bind-connect_inet os (codes "udp") (codes "*") (codes "9000") (inl refl) (λ e. cc) (refl, tt)
      (λ e. cc) (ground arith) refl (omega arith) open_client

bind-connect_unix_example :
    (bind os (codes "unix://my") open_client
      ≡ guarded os
          (λ fd. os.bind_to fd (unix_at (named_path net (codes "my"))))
          (codes "Socket UDS couldn't bind: ")
          open_client)
    × (connect os (codes "unix://my") open_client
        ≡ guarded os
            (λ fd. os.connect_to fd (unix_at (named_path net (codes "my"))))
            (codes "Socket UDS couldn't connect: ")
            open_client)
unfolding in_class
bind-connect_unix_example =
    bind-connect_unix os (codes "my") open_client (λ e. cc)
      (InClass-all_in path_class (codes "my") refl)

-- The type is a datagram socket's, so_reuseaddr cannot be read, and every other byte is 64.
abbrev answers : OptName → Option ℕ
answers so_type = some 2
answers so_reuseaddr = none
answers _ = some 64

abbrev asked : Os
asked = record os { get_byte = λ fd level name w. (answers name, w) }
