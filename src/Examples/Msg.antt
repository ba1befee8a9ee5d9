-- ===== src/Examples/Msg.antt =====
-- examples/msg.cpp: two structures as messages. C++'s `double` with its equality and its print, and the
-- memory layouts of the two structures are parameters.
pub mod Good
use marko_cpp.Prelude.{
  ℕ, Bytes, codes, List, [], ◌∷◌, ◌++◌, Bool, replicate, length, ◌&&◌, if◌then◌else◌, ℤ, pos,
  eq_int,
}
use marko_cpp.Prelude.Decimal.{to_string}
use marko_cpp.Outcome.{Outcome, returned, ◌>>=◌}
use marko_cpp.Message.{Layout, pack, unpack, print_items}
use marko_cpp.SocketInfo.{print_int}

pub record DataT (Real : Type 0) : Type 0 where
  pub a : Real
  pub b : ℤ

pub record Data2T (Real : Type 0) : Type 0 where
  pub a : Real
  pub b : ℤ

module _ {Real : Type 0} (same : Real → Real → Bool) (show_real : Real → Bytes)
    (l : Layout (DataT Real)) (l2 : Layout (Data2T Real)) (garbage : Bytes) where
  -- `data_t::print` and `data2_t::print`, which names the same structure.
  abbrev pub data_t_print : DataT Real → Bytes
  data_t_print d =
      codes "data_t "
      ++ (show_real d.a ++ (codes " " ++ (print_int d.b ++ (codes " size " ++ to_string l.size))))

  abbrev pub data2_t_print : Data2T Real → Bytes
  data2_t_print d =
      codes "data_t "
      ++ (show_real d.a ++ (codes " " ++ (print_int d.b ++ (codes " size " ++ to_string l2.size))))

  -- The line on `r`, which was unpacked, against `d`.
  unfoldable pub verdict : DataT Real → DataT Real → Bytes
  verdict d r =
      if same r.a d.a && eq_int r.b d.b
      then codes "good: " ++ (show_real r.a ++ (codes " " ++ print_int r.b))
      else codes "bad"

  -- The lines of `main`; the bytes of `mm` are printed by the same loop as in `msg2string`. Its structures hold 1.1 and 2.2.
  unfoldable pub main : Real → Real → Outcome (List Bytes)
  unfolding verdict
  main x y = do
    let d : DataT Real = record { a = x; b = pos 3 }
    let dd : Data2T Real = record { a = y; b = pos 6 }
    let m = pack l d
    let mm = pack l2 dd
    let s = replicate 1024 0
    r ← unpack l garbage m
    returned (
        print_items mm
        ∷ verdict d r
        ∷ (codes "size of contructed: " ++ to_string (length {A = ℕ} s))
        ∷ [])
