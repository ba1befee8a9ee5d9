-- ===== src/Message/Memory.antt =====
-- Packing against unpacking, for every type and for `subscription_t`
-- (src/include/marko/message.hpp).
use marko_cpp.Prelude.{
  ℕ, ◌<◌, Bytes, [], ◌∷◌, length, replicate, ◌≡◌, refl, arith, drop_all, length-replicate,
  append-nil, leb_iff,
}
use marko_cpp.Outcome.{returned, undefined}
use marko_cpp.Message.{Layout, Subscription, pack, unpack}

module _ {T : Type 0} (l : Layout T) where
  pub pack_lem : (d : T) → pack l d ≡ l.bytes d
  unfolding pack
  pack_lem d = rw (
    drop_all (length (l.bytes d)) (replicate {A = ℕ} l.size 0)
        (omega (arith, l.length-bytes d, length-replicate {0} {A = ℕ} l.size 0)),
    append-nil,
  )

  -- What was packed is unpacked again, whatever the memory of the result, which has the size of
  -- the type, held before.
  pub unpack-pack :
      (garbage : Bytes) (d : T) → length garbage ≡ l.size → unpack l garbage (pack l d) ≡ returned d
  unfolding unpack
  unpack-pack garbage d full = rw (
    pack_lem d,
    (leb_iff (length (l.bytes d)) l.size).1 (omega (arith, l.length-bytes d)),
    drop_all (length (l.bytes d)) garbage (omega (arith, l.length-bytes d)),
    append-nil,
    l.value_of-bytes d,
  )

  -- A message longer than the type has no defined result: it is copied past the end of the
  -- object.
  pub unpack_overflow : (garbage m : Bytes) → l.size < length m → unpack l garbage m ≡ undefined
  unfolding unpack
  unpack_overflow garbage m long = ground arith

  -- A message of the size is unpacked into the value of its bytes.
  pub unpack_whole :
      (garbage m : Bytes)
      → length garbage ≡ l.size
      → length m ≡ l.size
      → unpack l garbage m ≡ returned (l.value_of m)
  unfolding unpack
  unpack_whole garbage m full whole = rw (
    (leb_iff (length m) l.size).1 (omega (arith, whole)),
    drop_all (length m) garbage (omega (arith, full, whole)),
    append-nil,
  )

  pub value_of-pack : (d : T) → l.value_of (pack l d) ≡ d
  value_of-pack d = rw (pack_lem d) (l.value_of-bytes d)

-- The two bytes of `subscription_t`, which is packed.
abbrev pub subscription_bytes : Subscription → Bytes
subscription_bytes d = d.topic ∷ d.status ∷ []

abbrev pub subscription_of : Bytes → Subscription
subscription_of (t ∷ s ∷ m) = record { topic = t; status = s }
subscription_of _ = record { topic = 0; status = 0 }

abbrev pub subscription : Layout Subscription
subscription = record {
  size = 2;
  bytes = subscription_bytes;
  value_of = subscription_of;
  length-bytes = λ d. refl;
  value_of-bytes = λ d. refl;
}
