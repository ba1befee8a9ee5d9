-- ===== src/Examples/Ps/Lines.antt =====
-- What the subscriber of examples/ps.cpp prints.
use marko_cpp.Prelude.Decimal.{to_string}
use marko_cpp.Regex.{in_class}
use marko_cpp.Machine.{Sock}
use marko_cpp.Prelude.{
  subst, ap, ◌∙◌, sym, ℕ, ◌<◌, Bytes, codes, List, [], ◌∷◌, ◌++◌, map, append-nil, append_assoc,
  length, ℤ, pos, ◌≡◌, refl, arith, inl,
}
use marko_cpp.Outcome.{returned}
use marko_cpp.Sockaddr.{ip_of, InetAddr, af_inet, htons, inaddr_any}
use marko_cpp.Os.{Os, inet_at, sock_dgram}
use marko_cpp.Socket.{bind, new_socket, make_socket, guard, guarded, close, socket_err}
use marko_cpp.Socket.Addresses.{bind-connect_inet}
use marko_cpp.SocketUdp.{constructs, destructs}
use marko_cpp.Transport.{udp}
use marko_cpp.Loop.Queue.{at_world}
use marko_cpp.Message.{Layout, pack}
use marko_cpp.Message.Memory.{unpack-pack}
use marko_cpp.Message.Received.{length-pack}
use marko_cpp.PubSub.{once, new_subscriber, register_cb, call_all}
use marko_cpp.Examples.Ps.{DataT, port, max_loop, cb, subscriber, poll_all, subscribes}
use marko_cpp.Examples.Inbox.{Inbox, recv-waits}

module _ (os : Os) {Real Int : Type 0} (printed : DataT Real Int → Bytes)
    (l : Layout (DataT Real Int)) (garbage : Bytes) (full : length garbage ≡ l.size)
    (some_size : 0 < l.size) (fd : ℤ) (box : Inbox os fd l.size) where
  once_prints :
      (v : DataT Real Int) (rest : List Bytes) (w : os.World)
      → box.waiting w ≡ pack l v ∷ rest
      → once (udp os) (subscriber os printed l garbage) (at_world fd w)
        ≡ (returned tt, at_world fd (os.print_line (printed v) (os.recvfrom_in fd l.size 0 w).1))
  unfolding once subscriber register_cb new_subscriber call_all cb
  once_prints v rest w e =
      rw (recv-waits os l some_size fd box v rest w e, unpack-pack l garbage v full)
        (ground (arith, length-pack l v))

  -- The end of rounds that take the values `vs`.
  abbrev pub Printed : List (DataT Real Int) → List Bytes → os.World → Type 0
  Printed vs rest w =
      (t : os.World) × (poll_all os printed l garbage (length vs) (at_world fd w)
        ≡ (returned tt, at_world fd t))
      × (box.lines t ≡ box.lines w ++ map printed vs)
      × (box.waiting t ≡ rest)

  pub poll_all-prints :
      (vs : List (DataT Real Int)) (rest : List Bytes) (w : os.World)
      → box.waiting w ≡ map (pack l) vs ++ rest
      → Printed vs rest w
  unfolding poll_all
  poll_all-prints [] rest w e = (w, refl, sym (append-nil (box.lines w)), e)
  poll_all-prints (v ∷ vs) rest w e =
      let got = box.on_receive (pack l v) (map (pack l) vs ++ rest) w e (length-pack l v) in
      let noted = box.on_print (printed v) (os.recvfrom_in fd l.size 0 w).1 in
      let w1 = os.print_line (printed v) (os.recvfrom_in fd l.size 0 w).1 in
      let (t, ran, all_lines, left) = poll_all-prints vs rest w1 (noted.0 ∙ got.2) in
      (
        t,
        rw (once_prints v (map (pack l) vs ++ rest) w e) ran,
        all_lines
            ∙ rw (noted.1, got.3) (append_assoc (box.lines w) (printed v ∷ []) (map printed vs)),
        left,
      )

abbrev pub any_addr : InetAddr
any_addr = record { sin_family = af_inet; sin_port = htons port; sin_addr = inaddr_any }

bind_any :
    (os : Os) (s : Sock os.World)
    → bind os (codes "udp://*:" ++ to_string port) s
      ≡ guarded os (λ fd. os.bind_to fd (inet_at any_addr)) (codes "Socket::bind() failed: ") s
unfolding in_class ip_of to_string
bind_any os s =
    (bind-connect_inet os (codes "udp") (codes "*") (codes "3000") (inl refl) (λ e. cc) (refl, tt)
      (λ e. cc) (ground arith) refl (omega arith) s).0

module _ (os : Os) {Real Int : Type 0} (printed : DataT Real Int → Bytes)
    (l : Layout (DataT Real Int)) (garbage : Bytes) (full : length garbage ≡ l.size)
    (some_size : 0 < l.size) (fd : ℕ) (box : Inbox os (pos fd) l.size) where
  -- Where the system gives a socket and binds it to port 3000 of every address, and ten packed
  -- values wait there, of at least a byte each: the subscriber, whose values have memory of their
  -- size, prints these values in their order, one each, leaves what waits behind them, closes its
  -- socket and ends normally.
  pub subscribes-prints :
      (vs : List (DataT Real Int)) (rest : List Bytes) (n : ℕ) (w w1 w2 : os.World)
      → length vs ≡ max_loop
      → os.socket af_inet sock_dgram 0 w ≡ (pos fd, w1)
      → os.bind_to (pos fd) (inet_at any_addr) w1 ≡ (pos n, w2)
      → box.waiting w2 ≡ map (pack l) vs ++ rest
      → (t : os.World) × (subscribes os printed l garbage w
          ≡ (returned tt, record { fd = socket_err; world = os.close_fd (pos fd) t }))
        × (box.lines t ≡ box.lines w2 ++ map printed vs)
        × (box.waiting t ≡ rest)
  unfolding subscribes constructs destructs close make_socket guard guarded new_socket
  subscribes-prints vs rest n w w1 w2 ten opened bound e =
      let (t, ran, all_lines, left) =
        poll_all-prints os printed l garbage full some_size (pos fd) box vs rest w2 e in
      (
        t,
        rw (opened, bind_any os (record { fd = pos fd; world = w1 }), bound)
            (ap (destructs os) (
              subst
                (λ k.
                  poll_all os printed l garbage k (at_world (pos fd) w2)
                  ≡ (returned tt, at_world (pos fd) t))
                ten ran)),
        all_lines,
        left,
      )
