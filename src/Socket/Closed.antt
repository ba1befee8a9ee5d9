-- ===== src/Socket/Closed.antt =====
-- The methods of a Socket that has no descriptor (src/include/marko/socket.hpp): one that was never
-- made, or that was closed.
use marko_cpp.Prelude.{true, is_neg, ℤ, ◌≡◌, ◌≢◌}
use marko_cpp.Outcome.{Outcome, returned}
use marko_cpp.Os.{Os, Level, OptName, OptVal, Address}
use marko_cpp.Machine.{Sock, M}
use marko_cpp.Socket.{socket_err, Call, shuts}

-- A system call on the descriptor -1 fails with EBADF.
pub record RefusesNone (os : Os) : Type 0 where
  pub of_set_option :
      (level : Level) (name : OptName) (val : OptVal) (w : os.World)
      → is_neg (os.set_option socket_err level name val w).0 ≡ true
  pub of_ioctl : (on : ℤ) (w : os.World) → is_neg (os.ioctl_nonblocking socket_err on w).0 ≡ true
  pub of_bind : (a : Address) (w : os.World) → is_neg (os.bind_to socket_err a w).0 ≡ true
  pub of_connect : (a : Address) (w : os.World) → is_neg (os.connect_to socket_err a w).0 ≡ true
  pub of_name : (w : os.World) → is_neg (os.name_of_socket socket_err w).0.0 ≡ true

-- A method that does not return on an object without a descriptor.
abbrev pub Unusable : {W A : Type 0} → M W A → Type 0
Unusable {W} {A} m = (s : Sock W) → s.fd ≡ socket_err → (a : A) → (m s).0 ≢ returned a

-- How a method ends on an object without a descriptor: `close` returns the object and the world as
-- they were, and no other method returns.
abbrev pub WithoutDescriptor : {W : Type 0} → Call → Sock W → Outcome (Unit {0}) × Sock W → Type 0
WithoutDescriptor shuts s r = r ≡ (returned tt, s)
WithoutDescriptor _ s r = r.0 ≢ returned tt
