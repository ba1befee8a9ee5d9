-- ===== src/Socket/Failure.antt =====
-- How the methods of Socket (src/include/marko/socket.hpp) fail.
use marko_cpp.Prelude.{
  eq_int_sound, subst, Bytes, codes, [], ◌∷◌, Bool, true, false, ◌||◌, eq_bytes, if◌then◌else◌, ℤ,
  pos, negsuc, is_neg, eq_int, ◌≡◌, refl, arith, Bool-cases, inl, inr,
}
use marko_cpp.Outcome.{Outcome, returned, threw, undefined, runtime_error}
use marko_cpp.Sockaddr.Throws.{ThrowsParse, unix_sockaddr-ThrowsParse, inet_sockaddr-ThrowsParse}
use marko_cpp.Outcome.{bad_function_call}
use marko_cpp.Regex.{Smatch, regex_search, proto}
use marko_cpp.Os.{Os, Level, OptName, sol_socket, so_reuseport, so_reuseaddr}
use marko_cpp.Machine.{Sock, M, continue, ◌>>=◌, ◌>>◌, ret, lift}
use marko_cpp.Socket.{
  Call, call, sets_timeout, sets_nonblocking, sets_option, gets_name, asks_available,
  asks_available_for_write, shuts, reuses, binds_to, connects_to, socket_err, ConType, connects,
  binds, in_fd_set, close, guard, guarded, settimeout, setnonblocking, setsockopt, getsockname,
  available, available_for_write, reuse_socket, set_unix, set_inet, set_matched,
}

-- A socket that was `before`: still open with its descriptor on a normal return; closed, that is
-- without a descriptor, where a system call failed; as it was where the address parser threw or
-- where C++ gives no meaning.
abbrev pub Ends : {W A : Type 0} → ℤ → Outcome A × Sock W → Type 0
Ends before (returned a, s) = s.fd ≡ before
Ends before (threw (runtime_error t), s) = s.fd ≡ socket_err
Ends before (threw e, s) = s.fd ≡ before
Ends before (undefined, s) = s.fd ≡ before

-- The descriptor that a method leaves on a normal return, from the one before.
abbrev pub left_by : Call → ℤ → ℤ
left_by shuts fd = socket_err
left_by _ fd = fd

abbrev pub KeepsDescriptor : {W A : Type 0} → M W A → Type 0
KeepsDescriptor {W} m = (s : Sock W) → Ends s.fd (m s)

>>=-KeepsDescriptor :
    {W A B : Type 0} (m : M W A) (f : A → M W B)
    → KeepsDescriptor m
    → ((a : A) → KeepsDescriptor (f a))
    → KeepsDescriptor (m >>= f)
>>=-KeepsDescriptor m f hm hf s = go (m s) (hm s)
  where
    go : (r : _) → Ends s.fd r → Ends s.fd (continue r f)
    go (returned a, s') e = subst (λ d. Ends d (f a s')) e (hf a s')
    go (threw (runtime_error t), s') e = e
    go (threw x, s') e = e
    go (undefined, s') e = e

lift-KeepsDescriptor :
    {W A : Type 0} (o : Outcome A) → ThrowsParse o → KeepsDescriptor {W = W} (lift o)
lift-KeepsDescriptor (returned a) h s = refl
lift-KeepsDescriptor (threw (runtime_error t)) h s = absurd h
lift-KeepsDescriptor (threw bad_function_call) h s = refl
lift-KeepsDescriptor (threw _) h s = refl
lift-KeepsDescriptor undefined h s = refl

if-KeepsDescriptor :
    {W A : Type 0} (b : Bool) (m n : M W A)
    → KeepsDescriptor m
    → KeepsDescriptor n
    → KeepsDescriptor {W = W} {A = A} (if b then m else n)
if-KeepsDescriptor true m n hm hn = hm
if-KeepsDescriptor false m n hm hn = hn

module _ (os : Os) where
  guard-KeepsDescriptor : (err : ℤ) (msg : Bytes) → KeepsDescriptor (guard os err msg)
  unfolding guard close
  guard-KeepsDescriptor (pos n) msg s = refl
  guard-KeepsDescriptor (negsuc n) msg s = ground arith

  guarded-KeepsDescriptor :
      (call : ℤ → os.World → ℤ × os.World) (msg : Bytes) → KeepsDescriptor (guarded os call msg)
  unfolding guarded
  guarded-KeepsDescriptor call msg s =
      guard-KeepsDescriptor (call s.fd s.world).0 msg (record s { world = (call s.fd s.world).1 })

  guarded_value :
      {A : Type 0} (err : ℤ) (msg : Bytes) (a : A)
      → KeepsDescriptor (guard os err msg >> ret {W = os.World} a)
  guarded_value err msg a =
      >>=-KeepsDescriptor (guard os err msg) (λ _. ret a) (guard-KeepsDescriptor err msg)
        (λ _ s. refl)

  settimeout-KeepsDescriptor : (t : ℤ) → KeepsDescriptor (settimeout os t)
  unfolding settimeout
  settimeout-KeepsDescriptor t = guarded-KeepsDescriptor _ _

  setnonblocking-KeepsDescriptor : (b : Bool) → KeepsDescriptor (setnonblocking os b)
  unfolding setnonblocking
  setnonblocking-KeepsDescriptor b = guarded-KeepsDescriptor _ _

  setsockopt-KeepsDescriptor :
      (level : Level) (name : OptName) (val : ℤ) → KeepsDescriptor (setsockopt os level name val)
  unfolding setsockopt
  setsockopt-KeepsDescriptor level name val = guarded-KeepsDescriptor _ _

  reuse_socket-KeepsDescriptor : (b : Bool) → KeepsDescriptor (reuse_socket os b)
  unfolding reuse_socket
  reuse_socket-KeepsDescriptor true =
      >>=-KeepsDescriptor _ _ (setsockopt-KeepsDescriptor sol_socket so_reuseport (pos 1))
        (λ _. setsockopt-KeepsDescriptor sol_socket so_reuseaddr (pos 1))
  reuse_socket-KeepsDescriptor false =
      >>=-KeepsDescriptor _ _ (setsockopt-KeepsDescriptor sol_socket so_reuseport (pos 0))
        (λ _. setsockopt-KeepsDescriptor sol_socket so_reuseaddr (pos 0))

  getsockname-KeepsDescriptor : KeepsDescriptor (getsockname os)
  unfolding getsockname
  getsockname-KeepsDescriptor s = guarded_value _ _ _ (record s { world = _ })

  available-KeepsDescriptor : KeepsDescriptor (available os)
  unfolding available
  available-KeepsDescriptor s = elim (Bool-cases (in_fd_set s.fd)) [
    | inl fits ↦ rw fits (guarded_value _ _ _ (record s { world = _ }))
    | inr out ↦ rw out
  ]

  available_for_write-KeepsDescriptor : KeepsDescriptor (available_for_write os)
  unfolding available_for_write
  available_for_write-KeepsDescriptor s = elim (Bool-cases (in_fd_set s.fd)) [
    | inl fits ↦ rw fits (guarded_value _ _ _ (record s { world = _ }))
    | inr out ↦ rw out
  ]

  set_unix-KeepsDescriptor :
      (address path : Bytes) (type : ConType) → KeepsDescriptor (set_unix os address path type)
  unfolding set_unix
  set_unix-KeepsDescriptor address path connects =
      >>=-KeepsDescriptor _ _ (lift-KeepsDescriptor _ (unix_sockaddr-ThrowsParse os.net address))
        λ addr s. guarded-KeepsDescriptor _ _ (record s { world = _ })
  set_unix-KeepsDescriptor address path binds =
      >>=-KeepsDescriptor _ _ (lift-KeepsDescriptor _ (unix_sockaddr-ThrowsParse os.net address))
        λ addr s. guarded-KeepsDescriptor _ _ (record s { world = _ })

  set_inet-KeepsDescriptor :
      (address : Bytes) (type : ConType) → KeepsDescriptor (set_inet os address type)
  unfolding set_inet
  set_inet-KeepsDescriptor address connects =
      >>=-KeepsDescriptor _ _ (lift-KeepsDescriptor _ (inet_sockaddr-ThrowsParse os.net address))
        λ addr s. guarded-KeepsDescriptor _ _ s
  set_inet-KeepsDescriptor address binds =
      >>=-KeepsDescriptor _ _ (lift-KeepsDescriptor _ (inet_sockaddr-ThrowsParse os.net address))
        λ addr s. guarded-KeepsDescriptor _ _ s

  set_matched-KeepsDescriptor :
      (address : Bytes) (type : ConType) (m : Smatch)
      → KeepsDescriptor (set_matched os address type m)
  unfolding set_matched
  set_matched-KeepsDescriptor address type [] = guard-KeepsDescriptor _ _
  set_matched-KeepsDescriptor address type (w ∷ protocol ∷ path ∷ []) =
      if-KeepsDescriptor (eq_bytes protocol (codes "unix")) _ _
        (set_unix-KeepsDescriptor address path type)
        (if-KeepsDescriptor (eq_bytes protocol (codes "tcp") || eq_bytes protocol (codes "udp")) _ _
          (set_inet-KeepsDescriptor address type) (λ s. refl))
  set_matched-KeepsDescriptor address type _ = λ s. refl

  discard :
      {A : Type 0} (m : M os.World A)
      → KeepsDescriptor m
      → KeepsDescriptor (m >>= λ _. ret {W = os.World} (tt {0}))
  discard m h = >>=-KeepsDescriptor m (λ _. ret tt) h (λ _ s. refl)

  close-Ends : (s : Sock os.World) → Ends socket_err (close os s)
  unfolding close
  close-Ends s = elim (Bool-cases (eq_int s.fd socket_err)) [
    | inl e ↦ rw e (eq_int_sound s.fd socket_err e)
    | inr e ↦ rw e refl
  ]

  -- The public methods of the class Socket, whatever the system calls do: on a normal return
  -- `close` leaves the object without a descriptor, and each other one leaves it with the descriptor
  -- that it had. Where a method throws std::runtime_error the object is closed; where it throws
  -- another exception or has no defined result the descriptor is still the same.
  pub call-Ends : (c : Call) (s : Sock os.World) → Ends (left_by c s.fd) (call os c s)
  unfolding call
  call-Ends (sets_timeout t) = settimeout-KeepsDescriptor t
  call-Ends (sets_nonblocking b) = setnonblocking-KeepsDescriptor b
  call-Ends (sets_option level name val) = setsockopt-KeepsDescriptor level name val
  call-Ends gets_name = discard (getsockname os) getsockname-KeepsDescriptor
  call-Ends asks_available = discard (available os) available-KeepsDescriptor
  call-Ends asks_available_for_write =
      discard (available_for_write os) available_for_write-KeepsDescriptor
  call-Ends shuts = close-Ends
  call-Ends (reuses b) = reuse_socket-KeepsDescriptor b
  call-Ends (binds_to address) =
      set_matched-KeepsDescriptor address binds (regex_search address proto)
  call-Ends (connects_to address) =
      set_matched-KeepsDescriptor address connects (regex_search address proto)

-- A call that ends in std::runtime_error, with the object closed.
abbrev pub Fails : {W A : Type 0} → Outcome A × Sock W → Type 0
Fails r = ((text : Bytes) × (r.0 ≡ threw (runtime_error text))) × (r.1.fd ≡ socket_err)

pub >>=-Fails :
    {W A B : Type 0} (r : Outcome A × Sock W) (f : A → M W B) → Fails r → Fails (continue r f)
>>=-Fails (returned a, s) f ((text, e), closed) = cc
>>=-Fails (threw x, s) f ((text, e), closed) = ((text, ground arith), closed)
>>=-Fails (undefined, s) f ((text, e), closed) = cc

close-returned :
    (os : Os) (s : Sock os.World)
    → (s' : Sock os.World) × (close os s ≡ (returned tt, s')) × (s'.fd ≡ socket_err)
unfolding close
close-returned os s = elim (Bool-cases (eq_int s.fd socket_err)) [
  | inl e ↦ (s, rw e, eq_int_sound s.fd socket_err e)
  | inr e ↦ (record { fd = socket_err; world = os.close_fd s.fd s.world }, rw e, refl)
]

pub guard-Fails :
    (os : Os) (err : ℤ) (msg : Bytes) (s : Sock os.World)
    → is_neg err ≡ true
    → Fails (guard os err msg s)
unfolding guard
guard-Fails os (pos n) msg s h = cc
guard-Fails os (negsuc n) msg s h =
    let (s', e, closed) = close-returned os s in rw e ((_, refl), closed)
