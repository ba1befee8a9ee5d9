-- ===== src/Gtests/Basics.antt =====
-- gtests/test_marko.cpp: addresses, fields and messages against fixed values.
use marko_cpp.Prelude.{
  ℕ, zero, suc, Bool, true, Bytes, codes, List, [], ◌∷◌, ◌++◌, eq_bytes, length, ◌==◌, ◌≡◌, refl,
  arith,
}
use marko_cpp.Prelude.Decimal.{to_string}
use marko_cpp.Outcome.{Outcome, returned, undefined, ◌>>=◌}
use marko_cpp.Regex.{in_class}
use marko_cpp.Regex.{host_class}
use marko_cpp.Regex.Runs.{InClass-all_in}
use marko_cpp.Sockaddr.{inet_sockaddr, htons, ip_of, inaddr_broadcast}
use marko_cpp.Sockaddr.Inets.{inet_sockaddr_port}
use marko_cpp.SocketBc.{bc_address}
use marko_cpp.Os.{Os}
use marko_cpp.Ascii.{new_ascii, getlines, append_rest}
use marko_cpp.Ascii
use marko_cpp.Message.{Layout, pack, unpack}
use marko_cpp.Message.Memory.{unpack-pack}
use marko_cpp.Gtests.{Harness}

pub record DataT (Int : Type 0) : Type 0 where
  pub a : Int

-- `msg[n] == text`
abbrev pub same_at : List Bytes → ℕ → Bytes → Outcome Bool
same_at [] n text = undefined
same_at (m ∷ msg) zero text = returned (eq_bytes m text)
same_at (m ∷ msg) (suc n) text = same_at msg n text

eq_bytes_refl : (xs : Bytes) → eq_bytes xs xs ≡ true
eq_bytes_refl [] = refl
eq_bytes_refl (x ∷ xs) = ground (arith, eq_bytes_refl xs)

module _ (os : Os) (h : Harness os) where
  unfoldable pub test_addresses : os.World → Outcome os.World
  test_addresses w = do
    addr ←
        inet_sockaddr os.net (codes "udp://" ++ (codes "1.2.3.4" ++ (codes ":" ++ to_string 9999)))
    let w1 = h.expect (eq_bytes addr.sin_addr (os.net.inet_addr (codes "1.2.3.4"))) w
    let w2 = h.expect (eq_bytes addr.sin_port (htons 9999)) w1
    bc_addr ← inet_sockaddr os.net (codes "udp://" ++ (codes "bc" ++ (codes ":" ++ to_string 99)))
    let w3 = h.expect (eq_bytes bc_addr.sin_addr (os.net.inet_addr (codes "255.255.255.255"))) w2
    returned (h.expect (eq_bytes bc_addr.sin_port (htons 99)) w3)

  unfoldable pub test_ascii : os.World → Outcome os.World
  test_ascii w = do
    let orig = codes "bob|tom|alice|george"
    let (a, msg) = Ascii.unpack (new_ascii 124) orig
    bob ← same_at msg 0 (codes "bob")
    tom ← same_at msg 1 (codes "tom")
    alice ← same_at msg 2 (codes "alice")
    george ← same_at msg 3 (codes "george")
    let w1 = h.expect george (h.expect alice (h.expect tom (h.expect bob w)))
    redo ← Ascii.pack a msg
    returned (h.expect (eq_bytes redo orig) w1)

  -- `five` is 5; `eq` and `l` are the numbers' and the structure's.
  unfoldable pub test_message :
      {Int : Type 0}
      → (Int → Int → Bool)
      → Layout (DataT Int)
      → Bytes
      → Int
      → os.World
      → Outcome os.World
  test_message eq l garbage five w = do
    e ← unpack l garbage (pack l (record { a = five }))
    returned (h.expect (l.size == l.size) (h.expect (eq five e.a) w))

  test_addresses-passes :
      (w : os.World)
      → length (os.net.inet_addr (codes "1.2.3.4")) ≡ 4
      → os.net.inet_addr (codes "255.255.255.255") ≡ inaddr_broadcast
      → test_addresses w
        ≡ returned (h.expect true (h.expect true (h.expect true (h.expect true w))))
  unfolding test_addresses ip_of in_class
  test_addresses-passes w four broadcast =
      rw
        (
          inet_sockaddr_port os.net (codes "1.2.3.4") 9999 (λ e. cc)
              (InClass-all_in host_class (codes "1.2.3.4") refl) four (omega arith),
          bc_address os.net 99 (omega arith),
          broadcast,
          eq_bytes_refl (os.net.inet_addr (codes "1.2.3.4")),
        )
        refl

  test_ascii-passes :
      (w : os.World)
      → test_ascii w
        ≡ returned (h.expect true (h.expect true (h.expect true (h.expect true (h.expect true w)))))
  unfolding test_ascii Ascii.unpack Ascii.pack getlines append_rest new_ascii
  test_ascii-passes w = refl

  test_message-passes :
      {Int : Type 0} (eq : Int → Int → Bool) (l : Layout (DataT Int)) (garbage : Bytes) (five : Int)
      (w : os.World)
      → length garbage ≡ l.size
      → eq five five ≡ true
      → test_message eq l garbage five w ≡ returned (h.expect true (h.expect true w))
  unfolding test_message
  test_message-passes eq l garbage five w full same =
      let again : (l.size == l.size) ≡ true = ground arith in
      rw (unpack-pack l garbage (record { a = five }) full, same, again) refl
