-- ===== src/Examples/Bc/Together.antt =====
-- The server and the client of examples/bc.cpp on the same network.
use marko_cpp.Prelude.{
  sym, ap, ◌∙◌, ℕ, zero, suc, Bytes, codes, List, [], ◌∷◌, ◌++◌, append-nil, append_assoc,
  replicate, length, ℤ, pos, ◌≡◌, refl, arith,
}
use marko_cpp.Prelude.Decimal.{to_string}
use marko_cpp.Outcome.{returned}
use marko_cpp.Sockaddr.{InetAddr, af_inet}
use marko_cpp.Os.{
  Os, sock_dgram, int_val, sol_socket, ipproto_ip, so_broadcast, ip_multicast_loop, inet_at,
}
use marko_cpp.SocketBc.{broadcast_addr}
use marko_cpp.Loop.Queue.{at_world}
use marko_cpp.Message.{pack}
use marko_cpp.Message.Memory.{subscription, unpack-pack}
use marko_cpp.Examples.Inbox.{Inbox, Wire, recv-waits}
use marko_cpp.Examples.Bc.{port, rounds, ss, server, receive_all}
use marko_cpp.Examples.Bc.Programs.{casts, server-casts}

abbrev packed : Bytes
packed = 69 ∷ 170 ∷ []

abbrev pub cast_line : Bytes
cast_line = codes "cast: [69,170,]"

abbrev pub got_line : Bytes
got_line = codes "69 170"

module _ (os : Os) (fd from : ℤ) (to : InetAddr) (wire : Wire os fd subscription.size from to) where
  casts-waits :
      (n : ℕ) (w : os.World)
      → let v = casts os from to n w in
        (wire.inbox.waiting v ≡ wire.inbox.waiting w ++ replicate n packed)
        × (wire.inbox.lines v ≡ wire.inbox.lines w ++ replicate n cast_line)
  unfolding casts
  casts-waits zero w =
      (sym (append-nil (wire.inbox.waiting w)), sym (append-nil (wire.inbox.lines w)))
  casts-waits (suc n) w =
      let sent = wire.on_send packed w in
      let w1 = (os.send_to from packed 0 (inet_at to) w).1 in
      let said = wire.inbox.on_print cast_line w1 in
      let rest = casts-waits n (os.print_line cast_line w1) in
      (
        rest.0 ∙ rw (said.0, sent.0) (append_assoc (wire.inbox.waiting w) (packed ∷ []) _),
        rest.1 ∙ rw (said.1, sent.1) (append_assoc (wire.inbox.lines w) (cast_line ∷ []) _),
      )

module _ (os : Os) (garbage : Bytes) (full : length garbage ≡ 2) (fd : ℤ)
    (box : Inbox os fd subscription.size) where
  receive_all-prints :
      (n : ℕ) (rest : List Bytes) (w : os.World)
      → box.waiting w ≡ replicate n packed ++ rest
      → (t : os.World) × (receive_all os garbage n (at_world fd w) ≡ (returned tt, at_world fd t))
        × (box.lines t ≡ box.lines w ++ replicate n got_line)
        × (box.waiting t ≡ rest)
  unfolding receive_all pack to_string
  receive_all-prints zero rest w e = (w, refl, sym (append-nil (box.lines w)), e)
  receive_all-prints (suc n) rest w e =
      let got = box.on_receive packed (replicate n packed ++ rest) w e refl in
      let w1 = (os.recvfrom_in fd 2 0 w).1 in
      let said = box.on_print got_line w1 in
      let (t, ran, all_lines, left) =
        receive_all-prints n rest (os.print_line got_line w1) (said.0 ∙ got.2) in
      (
        t,
        rw
            (
              recv-waits os subscription (omega arith) fd box ss (replicate n packed ++ rest) w e,
              unpack-pack subscription garbage ss full,
            )
            ran,
        all_lines ∙ rw (said.1, got.3) (append_assoc (box.lines w) (got_line ∷ []) _),
        left,
      )

-- The server runs to its end, on a system that gives it a socket and sets its two options and where
-- nothing waits at the client's descriptor, which gets what is broadcast at port 11311; the network
-- loses nothing. Then the client's five rounds, with two bytes of memory, print "69 170" each
-- behind the five lines of the server, end normally, and leave nothing.
pub server-receive_all :
    (os : Os) (garbage : Bytes) (fd : ℤ) (from : ℕ)
    (wire : Wire os fd subscription.size (pos from) (broadcast_addr port)) (w w1 w2 w3 : os.World)
    → length garbage ≡ 2
    → os.socket af_inet sock_dgram 0 w ≡ (pos from, w1)
    → os.set_option (pos from) sol_socket so_broadcast (int_val (pos 1)) w1 ≡ (pos 0, w2)
    → os.set_option (pos from) ipproto_ip ip_multicast_loop (int_val (pos 1)) w2 ≡ (pos 0, w3)
    → wire.inbox.waiting w3 ≡ []
    → (t : os.World) × (receive_all os garbage rounds (at_world fd (server os w).1.world)
        ≡ (returned tt, at_world fd t))
      × (wire.inbox.lines t
          ≡ (wire.inbox.lines w3 ++ replicate rounds (codes "cast: [69,170,]"))
            ++ replicate rounds (codes "69 170"))
      × (wire.inbox.waiting t ≡ [])
server-receive_all os garbage fd from wire w w1 w2 w3 full opened broadcasts loops fresh =
    let v = casts os (pos from) (broadcast_addr port) rounds w3 in
    let ended = os.close_fd (pos from) v in
    let sent = casts-waits os fd (pos from) (broadcast_addr port) wire rounds w3 in
    let closed = wire.on_close v in
    let (t, ran, all_lines, left) =
      receive_all-prints os garbage full fd wire.inbox rounds [] ended
        (closed.0 ∙ (sent.0 ∙ rw fresh (sym (append-nil (replicate rounds packed))))) in
    (
      t,
      rw (ap (λ r. r.1.world) (server-casts os from w w1 w2 w3 opened broadcasts loops)) ran,
      all_lines ∙ rw (closed.1, sent.1),
      left,
    )
