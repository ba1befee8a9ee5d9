-- ===== src/PubSub/Mesh.antt =====
-- Many publishers and many subscribers (src/include/marko/pub_sub.hpp) at the same time, over any
-- socket of datagrams: every interleaving of whole `publish` calls, each with its publisher's
-- addresses, and whole rounds of the subscribers, over a network that may lose datagrams.
pub mod Shares
use marko_cpp.Prelude.{
  ℕ, Bool, true, Bytes, List, [], ◌∷◌, ◌++◌, map, replicate, length, ℤ, pos, ◌≡◌, ◌≢◌, ◌⊎◌,
}
use marko_cpp.Outcome.{returned}
use marko_cpp.Loop.Queue.{at_world}
use marko_cpp.Transport.{Transport}
use marko_cpp.Transport.Datagrams.{Datagrams}
use marko_cpp.PubSub.{Subscriber, Publisher, once, publish}
use marko_cpp.PubSub.Delivery.{acts}
use marko_cpp.PubSub.Audience.{copies}

-- The subscriber `r` has the descriptor `fds r`; its callback `note r` writes down what it gets. A
-- datagram is put behind those that wait at each subscriber that its address reaches, or is lost,
-- for each of them by itself; a receive call takes the first one, whole; one that comes back with
-- nothing, where nothing waits, changes nothing.
pub record Network {W : Type 0} (t : Transport W) (d : Datagrams t) (gets : t.Addr → ℕ → Bool)
    (fds : ℕ → ℤ) (size : ℕ) (note : ℕ → Bytes → W → W) : Type 0 where
  pub waiting : ℕ → W → List Bytes
  pub seen : ℕ → W → List Bytes
  pub on_send :
      (fd : ℤ) (msg : Bytes) (a : t.Addr) (w : W) (r : ℕ)
      → let v = (d.send fd msg a w).1 in
        (seen r v ≡ seen r w)
        × ((waiting r v ≡ waiting r w)
            ⊎ ((gets a r ≡ true) × (waiting r v ≡ waiting r w ++ msg ∷ [])))
  pub on_receive :
      (r : ℕ) (msg : Bytes) (rest : List Bytes) (w : W)
      → waiting r w ≡ msg ∷ rest
      → length msg ≡ size
      → let x = d.take (fds r) size w in
        (x.0.num ≡ pos (length msg))
        × (x.0.written ≡ msg)
        × (waiting r x.1 ≡ rest)
        × ((b : ℕ) → b ≢ r → waiting b x.1 ≡ waiting b w)
        × ((b : ℕ) → seen b x.1 ≡ seen b w)
  pub on_idle :
      (r : ℕ) (w : W)
      → waiting r w ≡ []
      → (t.recv size (at_world (fds r) w)).0 ≡ returned []
      → let v = (t.recv size (at_world (fds r) w)).1.world in
        ((b : ℕ) → waiting b v ≡ waiting b w) × ((b : ℕ) → seen b v ≡ seen b w)
  pub on_note :
      (r : ℕ) (msg : Bytes) (w : W)
      → let v = note r msg w in
        ((b : ℕ) → waiting b v ≡ waiting b w)
        × (seen r v ≡ seen r w ++ msg ∷ [])
        × ((b : ℕ) → b ≢ r → seen b v ≡ seen b w)

-- What comes to a subscriber of messages that went to lists of addresses, if nothing is lost.
abbrev pub addressed : {A : Type 0} → (A → ℕ → Bool) → ℕ → List (List A × Bytes) → List Bytes
addressed gets r [] = []
addressed gets r ((addrs, msg) ∷ sent) =
    replicate (copies gets r addrs) msg ++ addressed gets r sent

module _ {W : Type 0} (t : Transport W) (gets : t.Addr → ℕ → Bool) (fds : ℕ → ℤ) (size : ℕ)
    (note : ℕ → Bytes → W → W) where
  -- One `publish` by a publisher on any descriptor.
  abbrev pub published : ℤ → Publisher t → Bytes → W → W
  published fd p msg w = (publish t msg p (at_world fd w)).1.world

  -- One round of a subscriber.
  abbrev pub subscriber : ℕ → Subscriber W
  subscriber r = record { callbacks = map acts (note r ∷ []); data_size = size }

  abbrev pub polled : ℕ → W → W
  polled r w = (once t (subscriber r) (at_world (fds r) w)).1.world

  -- The worlds that an interleaving leads to, with the messages that were published and their
  -- publishers' addresses, in order. A round goes on where something waits for it, or where its
  -- receive call comes back with nothing, as one of UDP does when it times out.
  pub data Reach (waiting : ℕ → W → List Bytes) (w0 : W)
      : W → List (List t.Addr × Bytes) → Type 0 where
    start : Reach waiting w0 w0 []
    publishes :
        {w : W} {sent : List (List t.Addr × Bytes)} (fd : ℤ) (p : Publisher t) (msg : Bytes)
        → length msg ≡ size
        → Reach waiting w0 w sent
        → Reach waiting w0 (published fd p msg w) (sent ++ (p.clientaddrs, msg) ∷ [])
    polls :
        {w : W} {sent : List (List t.Addr × Bytes)} (r : ℕ)
        → (waiting r w ≢ []) ⊎ ((t.recv size (at_world (fds r) w)).0 ≡ returned [])
        → Reach waiting w0 w sent
        → Reach waiting w0 (polled r w) sent
