-- ===== src/RequestReply.antt =====
-- src/include/marko/request_reply.hpp: Reply and Request, for any socket.
pub mod Exchange
pub mod Serving
pub mod Network
pub mod Ledger
pub mod Remote
use marko_cpp.Prelude.{
  ℕ, Bytes, Bool, true, false, ◌==◌, ◌||◌, not, if◌then◌else◌, length, ℤ, Option, none, some,
}
use marko_cpp.Outcome.{bad_function_call}
use marko_cpp.Machine.{Sock, M, continue, ◌>>=◌, ◌>>◌, ret, throw}
use marko_cpp.Transport.{Transport}
use marko_cpp.Loop.{loop}

-- A `std::function<message_t(const message_t &)>`.
abbrev pub ReplyCallback : Type 0 → Type 0
ReplyCallback W = Bytes → M W Bytes

-- `callback` is empty until one is registered.
pub record Reply (W : Type 0) : Type 0 where
  pub callback : Option (ReplyCallback W)
  pub msg_size : ℕ

pub record Request : Type 0 where
  pub msg_size : ℕ

module _ {W : Type 0} where
  unfoldable pub new_reply : ℕ → Reply W
  new_reply size = record { callback = none; msg_size = size }

  -- A later callback takes the place of an earlier one.
  unfoldable pub register_cb : ReplyCallback W → Reply W → Reply W
  register_cb func r = record r { callback = some func }

  unfoldable pub call_callback : Option (ReplyCallback W) → Bytes → M W Bytes
  call_callback none m = throw bad_function_call
  call_callback (some func) m = func m

unfoldable pub new_request : ℕ → Request
new_request size = record { msg_size = size }

module _ {W : Type 0} (socket : Transport W) where
  unfoldable pub answer : Reply W → Bytes → socket.Addr → M W (Unit {0})
  unfolding call_callback
  answer self m from_addr =
      if length m == 0 || not (length m == self.msg_size)
      then ret tt
      else (do r ← call_callback self.callback m; n ← socket.sendto r from_addr; ret tt)

  unfoldable pub once : Reply W → M W (Unit {0})
  unfolding answer
  once self = do (m, from_addr) ← socket.recvfrom self.msg_size; answer self m from_addr

  -- `loop(Event &event)`, with fuel; `false` when the fuel ran out.
  unfoldable pub reply_loop : (W → Bool) → Reply W → ℕ → M W Bool
  reply_loop is_set self = loop is_set (once self)

  -- `loop()`
  unfoldable pub reply_loop_forever : Reply W → ℕ → M W Bool
  reply_loop_forever self = loop (λ _. true) (once self)

  unfoldable pub request : Request → Bytes → socket.Addr → M W Bytes
  request self msg addr = do n ← socket.sendto msg addr; socket.recv self.msg_size
