-- ===== src/PubSub.antt =====
-- src/include/marko/pub_sub.hpp: Subscriber and Publisher, for any socket.
pub mod Delivery
pub mod Network
pub mod Polling
pub mod Audience
pub mod Mesh
use marko_cpp.Prelude.{
  ℕ, Bytes, List, [], ◌∷◌, ◌++◌, Bool, true, false, ◌==◌, if◌then◌else◌, length, ℤ,
}
use marko_cpp.Machine.{Sock, M, continue, ◌>>=◌, ◌>>◌, ret}
use marko_cpp.Transport.{Transport}
use marko_cpp.Loop.{loop}

-- A `std::function<void(const message_t &)>`: it may do anything, also to the socket, and throw.
abbrev pub SubCallback : Type 0 → Type 0
SubCallback W = Bytes → M W (Unit {0})

pub record Subscriber (W : Type 0) : Type 0 where
  pub callbacks : List (SubCallback W)
  pub data_size : ℕ

module _ {W : Type 0} where
  unfoldable pub new_subscriber : ℕ → Subscriber W
  new_subscriber data_size = record { callbacks = []; data_size = data_size }

  unfoldable pub register_cb : SubCallback W → Subscriber W → Subscriber W
  register_cb func sub = record sub { callbacks = sub.callbacks ++ func ∷ [] }

  -- `for (const SubCallback_t &callback: callbacks) callback(msg);`
  unfoldable pub call_all : List (SubCallback W) → Bytes → M W (Unit {0})
  call_all [] msg = ret tt
  call_all (callback ∷ callbacks) msg = do callback msg; call_all callbacks msg

module _ {W : Type 0} (socket : Transport W) where
  unfoldable pub once : Subscriber W → M W (Unit {0})
  unfolding call_all
  once sub = do
    msg ← socket.recv sub.data_size
    if length msg == 0 then ret tt else call_all sub.callbacks msg

  -- `loop(Event &event)`, with fuel; `false` when the fuel ran out.
  unfoldable pub subscriber_loop : (W → Bool) → Subscriber W → ℕ → M W Bool
  subscriber_loop is_set sub = loop is_set (once sub)

  -- `loop()`
  unfoldable pub subscriber_loop_forever : Subscriber W → ℕ → M W Bool
  subscriber_loop_forever sub = loop (λ _. true) (once sub)

  pub record Publisher : Type 0 where
    pub clientaddrs : List socket.Addr

  unfoldable pub register_addr : socket.Addr → Publisher → Publisher
  register_addr c p = record { clientaddrs = p.clientaddrs ++ c ∷ [] }

  unfoldable pub send_all : Bytes → List socket.Addr → M W (Unit {0})
  send_all msg [] = ret tt
  send_all msg (addr ∷ addrs) = do n ← socket.sendto msg addr; send_all msg addrs

  unfoldable pub publish : Bytes → Publisher → M W (Unit {0})
  unfolding send_all
  publish msg p = send_all msg p.clientaddrs
