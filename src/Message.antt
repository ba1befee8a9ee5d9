-- ===== src/Message.antt =====
-- src/include/marko/message.hpp: messages as bytes, packed and unpacked, and their print.
pub mod Memory
pub mod Print
pub mod Received
use marko_cpp.Prelude.{
  replicate, ℕ, Bytes, codes, List, [], ◌∷◌, ◌++◌, Bool, true, false, leb, if◌then◌else◌, length,
  overwrite, ◌≡◌, refl,
}
use marko_cpp.Prelude.Decimal.{to_string}
use marko_cpp.Outcome.{Outcome, returned, undefined, ◌>>=◌, ◌>>◌, require}

-- A trivially copyable type as `pack` and `unpack` see it: its size, the bytes of a value, and the
-- value that bytes stand for. The bytes are a function of the value, so that padding, where a type has
-- some, counts as a part of the value; a byte is a natural number, and that it is below 256 is not
-- asked.
pub record Layout (T : Type 0) : Type 0 where
  pub size : ℕ
  pub bytes : T → Bytes
  pub value_of : Bytes → T
  pub length-bytes : (d : T) → length (bytes d) ≡ size
  pub value_of-bytes : (d : T) → value_of (bytes d) ≡ d

pub record Subscription : Type 0 where
  pub topic : ℕ
  pub status : ℕ

abbrev pub subscribe : ℕ
subscribe = 0xAA

abbrev pub unsubscribe : ℕ
unsubscribe = 0x55

module _ {T : Type 0} (l : Layout T) where
  -- `message_t msg(sizeof(d))`, whose bytes memcpy overwrites; the vector starts as zeros.
  unfoldable pub pack : T → Bytes
  pack d = overwrite (l.bytes d) (replicate l.size 0)

  -- `T d;` holds `garbage`; memcpy writes `m.size()` bytes over it.
  unfoldable pub unpack : Bytes → Bytes → Outcome T
  unpack garbage m = do require (leb (length m) l.size); returned (l.value_of (overwrite m garbage))

unfoldable pub print_items : Bytes → Bytes
print_items [] = []
print_items (m ∷ msg) = to_string m ++ (codes "," ++ print_items msg)

unfoldable pub msg2string : Bytes → Bytes
unfolding print_items
msg2string [] = []
msg2string (m ∷ msg) = codes "[" ++ (print_items (m ∷ msg) ++ codes "]")
