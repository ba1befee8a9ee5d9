-- ===== src/Examples/Msg/Good.antt =====
-- What `main` of examples/msg.cpp prints.
use marko_cpp.Prelude.{Bytes, codes, [], ◌∷◌, ◌++◌, Bool, true, length, pos, ◌≡◌, refl}
use marko_cpp.Prelude.Decimal.{to_string}
use marko_cpp.Outcome.{returned}
use marko_cpp.Message.{Layout, print_items}
use marko_cpp.Message.Memory.{pack_lem, unpack-pack}
use marko_cpp.Examples.Msg.{DataT, Data2T, main}

-- Where the memory of the unpacked structure has its size and the number equals itself, as every
-- `double` but NaN does, the program prints the bytes of the second structure with commas, that the
-- first came back with both fields, and the size of the constructed message.
pub main_good :
    {Real : Type 0} (same : Real → Real → Bool) (show_real : Real → Bytes) (l : Layout (DataT Real))
    (l2 : Layout (Data2T Real)) (garbage : Bytes) (x y : Real)
    → length garbage ≡ l.size
    → same x x ≡ true
    → main same show_real l l2 garbage x y
      ≡ returned (
          print_items (l2.bytes (record { a = y; b = pos 6 }))
          ∷ (codes "good: " ++ (show_real x ++ codes " 3"))
          ∷ codes "size of contructed: 1024"
          ∷ [])
unfolding main to_string
main_good same show_real l l2 garbage x y full itself =
    rw
      (
        unpack-pack l garbage (record { a = x; b = pos 3 }) full,
        pack_lem l2 (record { a = y; b = pos 6 }),
        itself,
      )
      refl
