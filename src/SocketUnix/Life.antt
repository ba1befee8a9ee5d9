-- ===== src/SocketUnix/Life.antt =====
-- The life of a SocketUnix object (src/include/marko/socket_uds.hpp): as of any Socket, but with its
-- own methods and without `connect`, which the class deletes.
use marko_cpp.Prelude.{
  codes, ℕ, Bytes, List, ◌∷◌, false, ℤ, eq_int, is_neg, if◌then◌else◌, ◌≡◌, ◌⊎◌,
}
use marko_cpp.Sockaddr.{UnixAddr, af_unix}
use marko_cpp.Os.{Os, sock_dgram, Received, unix_at}
use marko_cpp.Machine.{M, ◌>>=◌, ret}
use marko_cpp.Socket.{Call, call, socket_err}
use marko_cpp.Socket.Account.{ShowsCloses, Keeps, call-Keeps, tested-Keeps, forget, move_world}
use marko_cpp.Socket.Life.{is_deleted, destroyed, destroyed-closes}
use marko_cpp.SocketUdp.{received, size_differs}
use marko_cpp.SocketUnix.{new_unix, recvfrom, recvfrom_null, recv, sendto}

-- A method that a program calls on the object, the public ones of Socket that are not deleted among
-- them; `receives_from_null` gives no place for the sender. Copies are not among the uses.
pub data UnixUse : Type 0 where
  calls : (c : Call) → is_deleted c ≡ false → UnixUse
  receives receives_from receives_from_null : ℕ → ℕ → UnixUse
  sends : Bytes → UnixAddr → ℕ → UnixUse

module _ (os : Os) where
  unfoldable pub unix_use_once : UnixUse → M os.World (Unit {0})
  unix_use_once (calls c there) = call os c
  unix_use_once (receives msg_size flags) = recv os msg_size flags >>= λ _. ret tt
  unix_use_once (receives_from msg_size flags) = recvfrom os msg_size flags >>= λ _. ret tt
  unix_use_once (receives_from_null msg_size flags) =
      recvfrom_null os msg_size flags >>= λ _. ret tt
  unix_use_once (sends msg addr flags) = sendto os msg addr flags >>= λ _. ret tt

  unfoldable pub unix_life : List UnixUse → os.World → os.World
  unfolding unix_use_once
  unix_life us w = destroyed os unix_use_once us (new_unix os w)

module _ (os : Os) (shows : ShowsCloses os) (fd : ℤ) (log : List ℤ)
    (real : eq_int fd socket_err ≡ false) where
  unix_use_once-Keeps : (u : UnixUse) → Keeps os shows fd log real (unix_use_once os u)
  unfolding unix_use_once recv recvfrom recvfrom_null sendto
  unix_use_once-Keeps (calls c there) s = call-Keeps os shows fd log real c s
  unix_use_once-Keeps (receives msg_size flags) s =
      forget os shows fd log real (recv os msg_size flags)
        (tested-Keeps os shows fd log real {A = Received UnixAddr} {B = Bytes}
          (λ fd. os.recvfrom_un fd msg_size flags) (λ r. r.num) (codes "Unix recv: ")
          (λ r. received msg_size r.num r.written) (λ n. shows.of_recvfrom_unix n msg_size flags))
        s
  unix_use_once-Keeps (receives_from msg_size flags) s =
      move_world os shows fd log real s _ (shows.of_recvfrom_unix s.fd msg_size flags s.world)
  unix_use_once-Keeps (receives_from_null msg_size flags) s = λ h. h
  unix_use_once-Keeps (sends msg addr flags) s =
      forget os shows fd log real (sendto os msg addr flags)
        (tested-Keeps os shows fd log real {A = ℤ} {B = ℤ}
          (λ fd. os.send_to fd msg flags (unix_at addr)) (size_differs msg)
          (codes "sendto() sent incorrect number of bytes") (λ n. n)
          (λ n. shows.of_send n msg flags (unix_at addr)))
        s

-- A SocketUnix that is not copied, too, closes the descriptor that it was given exactly once from its
-- constructor to its destructor, and no other one, whichever of its methods are called in whatever
-- order, `close` included, and whatever fails on the way, a receive that timed out included; an object
-- that was given none closes none. What is asked of the system is that socket() gives -1 or a number
-- that is not negative, and that only close() closes.
pub unix_life_closes :
    (os : Os) (shows : ShowsCloses os) (us : List UnixUse) (w : os.World)
    → let r = os.socket af_unix sock_dgram 0 w in
      (r.0 ≡ socket_err) ⊎ (is_neg r.0 ≡ false)
      → shows.closes (unix_life os us w)
        ≡ (if is_neg r.0 then shows.closes w else r.0 ∷ shows.closes w)
unfolding unix_life new_unix
unix_life_closes os shows =
    destroyed-closes os shows (unix_use_once os) af_unix (unix_use_once-Keeps os shows)
