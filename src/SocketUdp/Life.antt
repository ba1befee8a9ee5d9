-- ===== src/SocketUdp/Life.antt =====
-- The life of a SocketUDP object (src/include/marko/socket_udp.hpp): it is constructed, used by a
-- program that catches what the methods throw, and destroyed.
use marko_cpp.Prelude.{
  codes, ℕ, Bytes, List, ◌∷◌, false, ℤ, eq_int, ◌≡◌, ◌⊎◌, is_neg, if◌then◌else◌,
}
use marko_cpp.Sockaddr.{InetAddr}
use marko_cpp.Sockaddr.{af_inet}
use marko_cpp.Os.{Os, sock_dgram, inet_at}
use marko_cpp.Machine.{M, ◌>>=◌, ret}
use marko_cpp.Socket.{Call, call, socket_err}
use marko_cpp.Socket.Life.{is_deleted, destroyed, destroyed-closes}
use marko_cpp.Socket.Account.{tested-Keeps, forget, move_world, ShowsCloses, Keeps, call-Keeps}
use marko_cpp.SocketUdp.{new_udp, recvfrom, recv, sendto, size_differs}

-- A method that a program calls on the object, the public ones of Socket that are not deleted among
-- them. Copies of the object are not among the uses.
pub data Use : Type 0 where
  calls : (c : Call) → is_deleted c ≡ false → Use
  receives receives_from : ℕ → ℕ → Use
  sends : Bytes → InetAddr → ℕ → Use

module _ (os : Os) where
  unfoldable pub use_once : Use → M os.World (Unit {0})
  use_once (calls c there) = call os c
  use_once (receives msg_size flags) = recv os msg_size flags >>= λ _. ret tt
  use_once (receives_from msg_size flags) = recvfrom os msg_size flags >>= λ _. ret tt
  use_once (sends msg addr flags) = sendto os msg addr flags >>= λ _. ret tt

  unfoldable pub life : List Use → os.World → os.World
  unfolding use_once
  life us w = destroyed os use_once us (new_udp os w)

module _ (os : Os) (shows : ShowsCloses os) (fd : ℤ) (log : List ℤ)
    (real : eq_int fd socket_err ≡ false) where
  use_once-Keeps : (u : Use) → Keeps os shows fd log real (use_once os u)
  unfolding use_once recv recvfrom sendto
  use_once-Keeps (calls c there) s = call-Keeps os shows fd log real c s
  use_once-Keeps (receives msg_size flags) s =
      move_world os shows fd log real s _ (shows.of_recvfrom s.fd msg_size flags s.world)
  use_once-Keeps (receives_from msg_size flags) s =
      move_world os shows fd log real s _ (shows.of_recvfrom s.fd msg_size flags s.world)
  use_once-Keeps (sends msg addr flags) s =
      forget os shows fd log real (sendto os msg addr flags)
        (tested-Keeps os shows fd log real {A = ℤ} {B = ℤ}
          (λ fd. os.send_to fd msg flags (inet_at addr)) (size_differs msg)
          (codes "sendto() sent incorrect number of bytes") (λ n. n)
          (λ n. shows.of_send n msg flags (inet_at addr)))
        s

-- Over its whole life, from its constructor to its destructor, a SocketUDP that is not copied closes
-- the descriptor that it was given exactly once, and no other one, whichever of its methods are called
-- in whatever order, `close` included, whatever fails on the way, and whichever of the failures the
-- program goes on after; an object that was given none closes none. What is asked of the system is
-- that socket() gives -1 or a number that is not negative, and that only close() closes.
pub life_closes :
    (os : Os) (shows : ShowsCloses os) (us : List Use) (w : os.World)
    → let r = os.socket af_inet sock_dgram 0 w in
      (r.0 ≡ socket_err) ⊎ (is_neg r.0 ≡ false)
      → shows.closes (life os us w) ≡ (if is_neg r.0 then shows.closes w else r.0 ∷ shows.closes w)
unfolding life new_udp
life_closes os shows = destroyed-closes os shows (use_once os) af_inet (use_once-Keeps os shows)
