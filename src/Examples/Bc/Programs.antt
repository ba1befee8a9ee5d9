-- ===== src/Examples/Bc/Programs.antt =====
-- What the server of examples/bc.cpp sends and prints.
use marko_cpp.Prelude.{ℕ, zero, suc, codes, [], ◌∷◌, ℤ, pos, ◌≡◌, refl, arith}
use marko_cpp.Prelude.Decimal.{to_string}
use marko_cpp.Outcome.{returned}
use marko_cpp.Sockaddr.{InetAddr}
use marko_cpp.Os.{
  Os, inet_at, sock_dgram, int_val, sol_socket, ipproto_ip, so_broadcast, ip_multicast_loop,
}
use marko_cpp.Machine.{Sock}
use marko_cpp.Socket.{new_socket, make_socket, guard, guarded, close, socket_err, setsockopt}
use marko_cpp.SocketUdp.{destructs, new_udp}
use marko_cpp.SocketUdp.Laws.{sendto_lem}
use marko_cpp.SocketBc.{new_bc, cast, broadcast_addr, bc_address}
use marko_cpp.Message.{pack, msg2string}
use marko_cpp.Examples.Bc.{port, rounds, cast_all, server}

module _ (os : Os) where
  -- The world after `n` rounds that send 69 and 170 to an address.
  unfoldable pub casts : ℤ → InetAddr → ℕ → os.World → os.World
  casts fd to zero w = w
  casts fd to (suc n) w =
      casts fd to n
        (os.print_line (codes "cast: [69,170,]") (os.send_to fd (69 ∷ 170 ∷ []) 0 (inet_at to) w).1)

  cast_all_lem :
      (to : InetAddr) (n : ℕ) (s : Sock os.World)
      → cast_all os to n s ≡ (returned tt, record s { world = casts s.fd to n s.world })
  unfolding cast_all casts cast pack msg2string to_string
  cast_all_lem to zero s = refl
  cast_all_lem to (suc n) s =
      rw (sendto_lem os (69 ∷ 170 ∷ []) to 0 s) (cast_all_lem to n (record s { world = _ }))

  -- Where the system gives a socket and sets its two options, the server sends the two bytes 69 and
  -- 170 to 255.255.255.255 at port 11311 five times, prints each, closes its socket, and ends
  -- normally whatever becomes of the sends.
  pub server-casts :
      (fd : ℕ) (w w1 w2 w3 : os.World)
      → os.socket marko_cpp.Sockaddr.af_inet sock_dgram 0 w ≡ (pos fd, w1)
      → os.set_option (pos fd) sol_socket so_broadcast (int_val (pos 1)) w1 ≡ (pos 0, w2)
      → os.set_option (pos fd) ipproto_ip ip_multicast_loop (int_val (pos 1)) w2 ≡ (pos 0, w3)
      → server os w ≡ (
        returned tt,
        record {
          fd = socket_err;
          world = os.close_fd (pos fd) (casts (pos fd) (broadcast_addr port) rounds w3);
        },
      )
  unfolding server destructs new_bc new_udp new_socket make_socket guard guarded setsockopt close
  server-casts fd w w1 w2 w3 opened broadcasts loops = rw (
    opened,
    broadcasts,
    loops,
    bc_address os.net port (omega arith),
    cast_all_lem (broadcast_addr port) rounds (record { fd = pos fd; world = w3 }),
  )
