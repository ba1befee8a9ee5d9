-- ===== src/Event.antt =====
-- src/include/marko/event.hpp: the class Event over a std::atomic_flag, with the threads that wait on
-- it. `std::atomic_flag::wait(old)` returns when the flag is not `old`; a thread that blocks in it looks
-- at the flag again when another thread notifies it, which no method of Event does, or when it is
-- unblocked spuriously.
use marko_cpp.Prelude.{List, [], ◌∷◌, Bool, true, false, if◌then◌else◌}

-- The flag, and the value on which each blocked thread waits.
pub record Event : Type 0 where
  pub flag : Bool
  pub blocked : List Bool

unfoldable pub new_event : Event
new_event = record { flag = false; blocked = [] }

-- `flag.test_and_set()`
unfoldable pub set : Event → Event
set e = record e { flag = true }

unfoldable pub clear : Event → Event
clear e = record e { flag = false }

unfoldable pub is_set : Event → Bool
is_set e = e.flag

abbrev pub eq_bool : Bool → Bool → Bool
eq_bool true b = b
eq_bool false true = false
eq_bool false false = true

-- `flag.wait(val)`: whether the caller goes on, and the event.
unfoldable pub wait : Bool → Event → Bool × Event
wait val e =
    if eq_bool e.flag val then (false, record e { blocked = val ∷ e.blocked }) else (true, e)

-- The thread that blocked last is unblocked, which a notification does and what the standard lets
-- happen without one: it looks at the flag again, and goes on where the flag is not its value.
unfoldable pub unblock : Event → Event
unblock e = elim e.blocked [
  | [] ↦ e
  | val ∷ others ↦ if eq_bool e.flag val then e else record e { blocked = others }
]
