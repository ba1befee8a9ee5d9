-- ===== src/Examples/Inbox.antt =====
-- What the programs of examples/ ask of the system to see what a receiver gets: the messages that wait
-- and the lines on the screen.
use marko_cpp.Prelude.{ℕ, ◌<◌, Bytes, List, [], ◌∷◌, ◌++◌, length, ℤ, pos, ◌≡◌, refl}
use marko_cpp.Outcome.{returned}
use marko_cpp.Sockaddr.{InetAddr}
use marko_cpp.Os.{Os, inet_at}
use marko_cpp.SocketUdp.{recv}
use marko_cpp.Loop.Queue.{at_world}
use marko_cpp.Message.{Layout, pack}
use marko_cpp.Message.Received.{length-pack, received_packed}

-- What is asked of the system around the descriptor of a receiver: a receive call takes the first of
-- the messages that wait there, whole, if it has the size that is asked for, and what is printed
-- comes behind the lines of before.
pub record Inbox (os : Os) (fd : ℤ) (size : ℕ) : Type 0 where
  pub waiting : os.World → List Bytes
  pub lines : os.World → List Bytes
  pub on_receive :
      (msg : Bytes) (rest : List Bytes) (w : os.World)
      → waiting w ≡ msg ∷ rest
      → length msg ≡ size
      → let r = os.recvfrom_in fd size 0 w in
        (r.0.num ≡ pos (length msg))
        × (r.0.written ≡ msg)
        × (waiting r.1 ≡ rest)
        × (lines r.1 ≡ lines w)
  pub on_print :
      (line : Bytes) (w : os.World)
      → (waiting (os.print_line line w) ≡ waiting w)
        × (lines (os.print_line line w) ≡ lines w ++ line ∷ [])

-- A network without losses around the receiver's descriptor, which is bound to `to`: a datagram
-- for `to` is put behind those that wait there, and closing the sender's descriptor changes
-- neither them nor the lines.
pub record Wire (os : Os) (fd : ℤ) (size : ℕ) (from : ℤ) (to : InetAddr) : Type 0 where
  pub inbox : Inbox os fd size
  pub on_send :
      (msg : Bytes) (w : os.World)
      → let v = (os.send_to from msg 0 (inet_at to) w).1 in
        (inbox.waiting v ≡ inbox.waiting w ++ msg ∷ []) × (inbox.lines v ≡ inbox.lines w)
  pub on_close :
      (w : os.World)
      → let v = os.close_fd from w in
        (inbox.waiting v ≡ inbox.waiting w) × (inbox.lines v ≡ inbox.lines w)

-- The first message, if it is a packed value, is received as it was packed.
pub recv-waits :
    (os : Os) {T : Type 0} (l : Layout T) (some_size : 0 < l.size) (fd : ℤ)
    (box : Inbox os fd l.size) (v : T) (rest : List Bytes) (w : os.World)
    → box.waiting w ≡ pack l v ∷ rest
    → recv os l.size 0 (at_world fd w)
      ≡ (returned (pack l v), at_world fd (os.recvfrom_in fd l.size 0 w).1)
unfolding recv
recv-waits os l some_size fd box v rest w e =
    let got = box.on_receive (pack l v) rest w e (length-pack l v) in
    rw (got.0, got.1, received_packed l v some_size) refl
