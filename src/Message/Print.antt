-- ===== src/Message/Print.antt =====
-- The print of a message (`msg2string` of src/include/marko/message.hpp) tells the message.
use marko_cpp.Prelude.{
  ℕ, ◌+◌, ◌-◌, ◌*◌, Bytes, codes, [], ◌∷◌, ◌++◌, append_assoc, ◌==◌, if◌then◌else◌, ◌≡◌, refl,
  arith, All,
}
use marko_cpp.Prelude.Decimal.{
  to_string, is_digit, IsDigit, value, value-to_string, IsDigit-to_string,
}
use marko_cpp.Message.{print_items, msg2string}

-- A reader of such prints: numbers that end with a comma, up to anything else.
unfoldable pub read_items : ℕ → Bytes → Bytes
read_items acc [] = []
read_items acc (c ∷ s) =
    let more = read_items 0 s in
    let digit = read_items (acc * 10 + (c - b'0')) s in
    if c == b',' then acc ∷ more else if is_digit c then digit else []

unfoldable pub read_message : Bytes → Bytes
unfolding read_items
read_message [] = []
read_message (bracket ∷ s) = read_items 0 s

read_items_number :
    (ds rest : Bytes) (acc : ℕ)
    → All IsDigit ds
    → read_items acc (ds ++ b',' ∷ rest) ≡ value acc ds ∷ read_items 0 rest
unfolding read_items
read_items_number [] rest acc h = refl
read_items_number (d ∷ ds) rest acc h =
    ground (arith, read_items_number ds rest (acc * 10 + (d - b'0')) h.1)

read_items-print_items : (msg : Bytes) → read_items 0 (print_items msg ++ codes "]") ≡ msg
unfolding print_items
read_items-print_items [] = unfold read_items in refl
read_items-print_items (m ∷ msg) = rw (
  append_assoc (to_string m) (codes "," ++ print_items msg) (codes "]"),
  read_items_number (to_string m) (print_items msg ++ codes "]") 0 (IsDigit-to_string m),
  value-to_string m,
  read_items-print_items msg,
)

-- A reader of decimal numbers gets the message back from its print.
pub read_message-msg2string : (msg : Bytes) → read_message (msg2string msg) ≡ msg
unfolding msg2string read_message
read_message-msg2string [] = refl
read_message-msg2string (m ∷ msg) = read_items-print_items (m ∷ msg)
