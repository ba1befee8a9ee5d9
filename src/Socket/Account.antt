-- ===== src/Socket/Account.antt =====
-- Who closes the descriptor of a SocketUDP (src/include/marko/socket.hpp, socket_udp.hpp): an object
-- that a program uses, catching what it throws, and then destroys.

use marko_cpp.Sockaddr.{InetAddr, unix_sockaddr, inet_sockaddr, inet2string}
use marko_cpp.Regex.{Smatch, regex_search, proto}
use marko_cpp.Prelude.{
  Bool-cases, is_neg, codes, eq_bytes, ◌||◌, pos, is_neg, ap, ℕ, Bytes, List, [], ◌∷◌, Bool, true,
  false, if◌then◌else◌, ℤ, eq_int, ◌≡◌, refl, ◌⊎◌, inl, inr, ◌∙◌,
}
use marko_cpp.Outcome.{Outcome, returned, threw, undefined}
use marko_cpp.Os.{
  Os, Level, OptName, OptVal, Address, inet_at, unix_at, int_val, time_val, sol_socket, so_rcvtimeo,
  so_reuseport, so_reuseaddr, SockType,
}
use marko_cpp.Time.{Timeval, get_time}
use marko_cpp.Machine.{Sock, M, continue, ◌>>=◌, ◌>>◌, ret, lift, sys, effect}
use marko_cpp.Socket.{
  socket_err, close, guard, guarded, settimeout, setnonblocking, setsockopt, getsockname, available,
  available_for_write, reuse_socket, set_unix, set_inet, set_matched, in_fd_set, one_msec, ConType,
  connects, binds, Call, call, sets_timeout, sets_nonblocking, sets_option, gets_name,
  asks_available, asks_available_for_write, shuts, reuses, binds_to, connects_to,
}

-- An operating system whose worlds show which descriptors were closed, the last one first: closing
-- notes the descriptor, and no other call closes one.
pub record ShowsCloses (os : Os) : Type 0 where
  pub closes : os.World → List ℤ
  pub close_noted : (fd : ℤ) (w : os.World) → closes (os.close_fd fd w) ≡ fd ∷ closes w
  pub of_socket :
      (family : ℕ) (type : SockType) (proto : ℕ) (w : os.World)
      → closes (os.socket family type proto w).1 ≡ closes w
  pub of_set_option :
      (fd : ℤ) (level : Level) (name : OptName) (val : OptVal) (w : os.World)
      → closes (os.set_option fd level name val w).1 ≡ closes w
  pub of_ioctl : (fd on : ℤ) (w : os.World) → closes (os.ioctl_nonblocking fd on w).1 ≡ closes w
  pub of_bind : (fd : ℤ) (a : Address) (w : os.World) → closes (os.bind_to fd a w).1 ≡ closes w
  pub of_connect :
      (fd : ℤ) (a : Address) (w : os.World) → closes (os.connect_to fd a w).1 ≡ closes w
  pub of_unlink : (path : Bytes) (w : os.World) → closes (os.unlink path w) ≡ closes w
  pub of_recvfrom :
      (fd : ℤ) (size flags : ℕ) (w : os.World)
      → closes (os.recvfrom_in fd size flags w).1 ≡ closes w
  pub of_recvfrom_unix :
      (fd : ℤ) (size flags : ℕ) (w : os.World)
      → closes (os.recvfrom_un fd size flags w).1 ≡ closes w
  pub of_send :
      (fd : ℤ) (msg : Bytes) (flags : ℕ) (a : Address) (w : os.World)
      → closes (os.send_to fd msg flags a w).1 ≡ closes w
  pub of_select_read :
      (fd : ℤ) (t : Timeval) (w : os.World) → closes (os.select_read fd t w).1 ≡ closes w
  pub of_select_write :
      (fd : ℤ) (t : Timeval) (w : os.World) → closes (os.select_write fd t w).1 ≡ closes w
  pub of_name : (fd : ℤ) (w : os.World) → closes (os.name_of_socket fd w).1 ≡ closes w
  pub of_print : (line : Bytes) (w : os.World) → closes (os.print_line line w) ≡ closes w

module _ (os : Os) (shows : ShowsCloses os) (fd : ℤ) (log : List ℤ)
    (real : eq_int fd socket_err ≡ false) where
  -- The object has the descriptor, and it was not closed; or it has none, and it was closed once.
  abbrev pub Account : Sock os.World → Type 0
  Account s =
      ((s.fd ≡ fd) × (shows.closes s.world ≡ log))
      ⊎ ((s.fd ≡ socket_err) × (shows.closes s.world ≡ fd ∷ log))

  abbrev pub After : {A : Type 0} → Outcome A × Sock os.World → Type 0
  After (returned a, s) = Account s
  After (threw e, s) = Account s
  After (undefined, s) = Account s

  -- A computation that keeps the account, however it ends.
  abbrev pub Keeps : {A : Type 0} → M os.World A → Type 0
  Keeps m = (s : Sock os.World) → Account s → After (m s)

  pub move_world :
      (s : Sock os.World) (w : os.World)
      → shows.closes w ≡ shows.closes s.world
      → Account s
      → Account (record s { world = w })
  move_world s w same (inl (e, l)) = inl (e, same ∙ l)
  move_world s w same (inr (e, l)) = inr (e, same ∙ l)

  pub >>=-Keeps :
      {A B : Type 0} (m : M os.World A) (f : A → M os.World B)
      → Keeps m
      → ((a : A) → Keeps (f a))
      → Keeps (m >>= f)
  >>=-Keeps {A} m f hm hf s h = go (m s) (hm s h)
    where
      go : (r : Outcome A × Sock os.World) → After r → After (continue r f)
      go (returned a, s') k = hf a s' k
      go (threw e, s') k = k
      go (undefined, s') k = k

  pub sys-Keeps :
      {A : Type 0} (g : ℤ → os.World → A × os.World)
      → ((n : ℤ) (w : os.World) → shows.closes (g n w).1 ≡ shows.closes w)
      → Keeps (sys g)
  sys-Keeps g same s h = move_world s (g s.fd s.world).1 (same s.fd s.world) h

  effect-Keeps :
      (g : os.World → os.World)
      → ((w : os.World) → shows.closes (g w) ≡ shows.closes w)
      → Keeps (effect g)
  effect-Keeps g same s h = move_world s (g s.world) (same s.world) h

  lift-Keeps : {A : Type 0} (o : Outcome A) → Keeps (lift o)
  lift-Keeps (returned a) s h = h
  lift-Keeps (threw e) s h = h
  lift-Keeps undefined s h = h

  if-Keeps :
      {A : Type 0} (b : Bool) (m n : M os.World A) → Keeps m → Keeps n → Keeps (if b then m else n)
  if-Keeps true m n hm hn = hm
  if-Keeps false m n hm hn = hn

  pub close-Keeps : Keeps (close os)
  unfolding close
  close-Keeps s (inl (e, l)) =
      rw (e, real) (inr (refl, shows.close_noted fd s.world ∙ ap (◌∷◌ fd) l))
  close-Keeps s (inr (e, l)) = rw e (inr (refl, l))

  pub guard-Keeps : (err : ℤ) (msg : Bytes) → Keeps (guard os err msg)
  unfolding guard
  guard-Keeps err msg =
      if-Keeps (is_neg err) _ _
        (>>=-Keeps (close os) _ close-Keeps (λ _ s h. move_world s _ (shows.of_print _ s.world) h))
        (λ s h. h)

  guarded-Keeps :
      (call : ℤ → os.World → ℤ × os.World) (msg : Bytes)
      → ((n : ℤ) (w : os.World) → shows.closes (call n w).1 ≡ shows.closes w)
      → Keeps (guarded os call msg)
  unfolding guarded
  guarded-Keeps call msg same =
      >>=-Keeps (sys call) (λ err. guard os err msg) (sys-Keeps call same)
        (λ err. guard-Keeps err msg)

  -- A system call, a test of its number, and a value.
  pub tested-Keeps :
      {A B : Type 0} (call : ℤ → os.World → A × os.World) (err : A → ℤ) (msg : Bytes)
      (value : A → B)
      → ((n : ℤ) (w : os.World) → shows.closes (call n w).1 ≡ shows.closes w)
      → Keeps (do r ← sys call; guard os (err r) msg; ret (value r))
  tested-Keeps call err msg value same =
      >>=-Keeps (sys call) (λ r. guard os (err r) msg >> ret (value r)) (sys-Keeps call same)
        (λ r.
          >>=-Keeps (guard os (err r) msg) (λ _. ret (value r)) (guard-Keeps (err r) msg)
            (λ _ s h. h))

  setsockopt-Keeps :
      (level : Level) (name : OptName) (val : ℤ) → Keeps (setsockopt os level name val)
  unfolding setsockopt
  setsockopt-Keeps level name val =
      guarded-Keeps _ _ (λ n. shows.of_set_option n level name (int_val val))

  reuse_socket-Keeps : (b : Bool) → Keeps (reuse_socket os b)
  unfolding reuse_socket
  reuse_socket-Keeps b =
      if-Keeps b _ _
        (>>=-Keeps _ _ (setsockopt-Keeps sol_socket so_reuseport (pos 1))
          (λ _. setsockopt-Keeps sol_socket so_reuseaddr (pos 1)))
        (>>=-Keeps _ _ (setsockopt-Keeps sol_socket so_reuseport (pos 0))
          (λ _. setsockopt-Keeps sol_socket so_reuseaddr (pos 0)))

  available-Keeps : Keeps (available os)
  unfolding available
  available-Keeps s h = elim (Bool-cases (in_fd_set s.fd)) [
    | inl fits ↦ rw fits (
        tested-Keeps {A = ℤ × Bool} {B = Bool} (λ fd. os.select_read fd one_msec) (λ r. r.0)
          (codes "Socket::available select issue") (λ r. r.1) (λ n. shows.of_select_read n one_msec)
          s h)
    | inr out ↦ rw out h
  ]

  available_for_write-Keeps : Keeps (available_for_write os)
  unfolding available_for_write
  available_for_write-Keeps s h = elim (Bool-cases (in_fd_set s.fd)) [
    | inl fits ↦ rw fits (
        tested-Keeps {A = ℤ × Bool} {B = Bool} (λ fd. os.select_write fd one_msec) (λ r. r.0)
          (codes "Socket::availableForWrite select issue") (λ r. r.1)
          (λ n. shows.of_select_write n one_msec) s h)
    | inr out ↦ rw out h
  ]

  set_unix-Keeps : (address path : Bytes) (type : ConType) → Keeps (set_unix os address path type)
  unfolding set_unix
  set_unix-Keeps address path connects =
      >>=-Keeps _ _ (lift-Keeps (unix_sockaddr os.net address)) (λ addr s h.
        guarded-Keeps _ _ (λ n. shows.of_connect n (unix_at addr)) (record s { world = _ })
          (move_world s _ (shows.of_unlink path s.world) h))
  set_unix-Keeps address path binds =
      >>=-Keeps _ _ (lift-Keeps (unix_sockaddr os.net address)) (λ addr s h.
        guarded-Keeps _ _ (λ n. shows.of_bind n (unix_at addr)) (record s { world = _ })
          (move_world s _ (shows.of_unlink path s.world) h))

  set_inet-Keeps : (address : Bytes) (type : ConType) → Keeps (set_inet os address type)
  unfolding set_inet
  set_inet-Keeps address connects =
      >>=-Keeps _ _ (lift-Keeps (inet_sockaddr os.net address))
        (λ addr. guarded-Keeps _ _ (λ n. shows.of_connect n (inet_at addr)))
  set_inet-Keeps address binds =
      >>=-Keeps _ _ (lift-Keeps (inet_sockaddr os.net address))
        (λ addr. guarded-Keeps _ _ (λ n. shows.of_bind n (inet_at addr)))

  set_matched-Keeps :
      (address : Bytes) (type : ConType) (m : Smatch) → Keeps (set_matched os address type m)
  unfolding set_matched
  set_matched-Keeps address type [] = guard-Keeps _ _
  set_matched-Keeps address type (w ∷ protocol ∷ path ∷ []) =
      if-Keeps (eq_bytes protocol (codes "unix")) _ _ (set_unix-Keeps address path type) (
        if-Keeps (eq_bytes protocol (codes "tcp") || eq_bytes protocol (codes "udp")) _ _
          (set_inet-Keeps address type) (λ s h. h))
  set_matched-Keeps address type _ = λ s h. h

  pub forget :
      {A : Type 0} (m : M os.World A) → Keeps m → Keeps (m >>= λ _. ret {W = os.World} (tt {0}))
  forget m hm = >>=-Keeps m _ hm (λ _ s h. h)

  pub call-Keeps : (c : Call) → Keeps (call os c)
  unfolding call
  call-Keeps (sets_timeout t) =
      unfold settimeout in
      guarded-Keeps _ _ (λ n. shows.of_set_option n sol_socket so_rcvtimeo (time_val (get_time t)))
  call-Keeps (sets_nonblocking b) =
      unfold setnonblocking in
      guarded-Keeps _ _ (λ n. shows.of_ioctl n (if b then pos 1 else pos 0))
  call-Keeps (sets_option level name val) = setsockopt-Keeps level name val
  call-Keeps gets_name = forget (getsockname os) (
      unfold getsockname in
      tested-Keeps {A = ℤ × InetAddr} {B = Bytes} _ (λ r. r.0) _ (λ r. inet2string os.net r.1)
        shows.of_name)
  call-Keeps asks_available = forget (available os) available-Keeps
  call-Keeps asks_available_for_write = forget (available_for_write os) available_for_write-Keeps
  call-Keeps shuts = close-Keeps
  call-Keeps (reuses b) = reuse_socket-Keeps b
  call-Keeps (binds_to address) = set_matched-Keeps address binds (regex_search address proto)
  call-Keeps (connects_to address) = set_matched-Keeps address connects (regex_search address proto)
