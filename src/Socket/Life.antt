-- ===== src/Socket/Life.antt =====
-- The life of an object of a class that is derived from Socket (src/include/marko/socket.hpp): it is
-- constructed, used by a program that catches what the methods throw, and destroyed.
use marko_cpp.Prelude.{
  Bool, true, negsuc, ap, ℕ, List, [], ◌∷◌, false, ℤ, pos, eq_int, ◌≡◌, refl, ◌⊎◌, inl, inr, is_neg,
  if◌then◌else◌, ◌∙◌,
}
use marko_cpp.Outcome.{Outcome, returned, threw, undefined}
use marko_cpp.Os.{Os, sock_dgram}
use marko_cpp.Machine.{Sock, M}
use marko_cpp.Socket.{Call, connects_to, close, guard, make_socket, new_socket, socket_err}
use marko_cpp.Socket.Account.{ShowsCloses, Account, After, Keeps}

-- SocketUDP and SocketUnix delete the inherited `connect`.
abbrev pub is_deleted : Call → Bool
is_deleted (connects_to address) = true
is_deleted _ = false

module _ (os : Os) {Use : Type 0} (use_once : Use → M os.World (Unit {0})) where
  -- The uses of the object in turn, each whatever became of the one before.
  unfoldable pub uses : List Use → Sock os.World → Sock os.World
  uses [] s = s
  uses (u ∷ us) s = uses us (use_once u s).1

  -- The uses and the destructor of a constructed object; an object whose constructor throws was
  -- never there.
  abbrev pub destroyed : List Use → Outcome (Unit {0}) × Sock os.World → os.World
  destroyed us (returned _, s) = (close os (uses us s)).1.world
  destroyed us (threw e, s) = s.world
  destroyed us (undefined, s) = s.world

module _ (os : Os) (shows : ShowsCloses os) (fd : ℤ) (log : List ℤ)
    (real : eq_int fd socket_err ≡ false) where
  After-Account :
      {A : Type 0} (r : Outcome A × Sock os.World)
      → After os shows fd log real r
      → Account os shows fd log real r.1
  After-Account (returned a, s) h = h
  After-Account (threw e, s) h = h
  After-Account (undefined, s) h = h

  uses-Account :
      {Use : Type 0} (use_once : Use → M os.World (Unit {0}))
      → ((u : Use) → Keeps os shows fd log real (use_once u))
      → (us : List Use) (s : Sock os.World) → Account os shows fd log real s
      → Account os shows fd log real (uses os use_once us s)
  unfolding uses
  uses-Account use_once keeps [] s h = h
  uses-Account use_once keeps (u ∷ us) s h =
      uses-Account use_once keeps us (use_once u s).1 (After-Account (use_once u s) (keeps u s h))

  closed-Account :
      (s : Sock os.World)
      → Account os shows fd log real s
      → shows.closes (close os s).1.world ≡ fd ∷ log
  unfolding close
  closed-Account s (inl (e, l)) = rw (e, real) (shows.close_noted fd s.world ∙ ap (◌∷◌ fd) l)
  closed-Account s (inr (e, l)) = rw e l

not_err : (n : ℤ) → is_neg n ≡ false → eq_int n socket_err ≡ false
not_err (pos n) h = refl
not_err (negsuc n) h = cc

-- A class whose constructor asks for a socket of this family and whose uses keep the account.
pub destroyed-closes :
    (os : Os) (shows : ShowsCloses os) {Use : Type 0} (use_once : Use → M os.World (Unit {0}))
    (family : ℕ)
    → ((fd : ℤ) (log : List ℤ) (real : eq_int fd socket_err ≡ false) (u : Use)
        → Keeps os shows fd log real (use_once u))
    → (us : List Use) (w : os.World)
    → let r = os.socket family sock_dgram 0 w in
      (r.0 ≡ socket_err) ⊎ (is_neg r.0 ≡ false)
      → shows.closes
          (destroyed os use_once us (make_socket os family sock_dgram 0 (new_socket os w)))
        ≡ (if is_neg r.0 then shows.closes w else r.0 ∷ shows.closes w)
unfolding make_socket guard close new_socket
destroyed-closes os shows use_once family keeps us w (inl none_given) =
    rw none_given (shows.of_print _ _ ∙ shows.of_socket family sock_dgram 0 w)
destroyed-closes os shows use_once family keeps us w (inr given) =
    let r = os.socket family sock_dgram 0 w in
    let real = not_err r.0 given in
    rw given (
      closed-Account os shows r.0 (shows.closes w) real
        (uses os use_once us (record { fd = r.0; world = r.1 }))
        (uses-Account os shows r.0 (shows.closes w) real use_once (keeps r.0 (shows.closes w) real)
          us (record { fd = r.0; world = r.1 })
          (inl (refl, shows.of_socket family sock_dgram 0 w))))
