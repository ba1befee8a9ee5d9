-- ===== src/RequestReply/Network.antt =====
-- Requesters and a replier (src/include/marko/request_reply.hpp) at the same time: every interleaving
-- of the sends and the receives of many requesters with whole rounds of one replier, over a network
-- that may lose datagrams. `request` is one such send and, behind it, one such receive.
pub mod Shares
use marko_cpp.Prelude.{
  done, ap, subst, ℕ, ◌<◌, Bytes, List, [], ◌∷◌, ◌++◌, All, All-append, length, ℤ, pos, negsuc,
  some, ◌≡◌, ◌≢◌, refl, ◌⊎◌, inl, inr, arith,
}
use marko_cpp.Outcome.{Outcome, returned}
use marko_cpp.Transport.{Transport}
use marko_cpp.Transport.Datagrams.{Datagrams}
use marko_cpp.SocketUdp.{received}
use marko_cpp.Loop.Queue.{at_world}
use marko_cpp.RequestReply.{Reply, once}
use marko_cpp.RequestReply.Ledger.{
  by, Own, same_or_other, Own-sent, Own-lost_request, Own-replied, Own-lost_reply, Own-other,
  Own-got, Own-got_other,
}
use marko_cpp.RequestReply.Exchange.{computes, arrives, received_whole, answer-computes}

-- The replier on descriptor `fd` expects `size` bytes and answers with `reply_size`; the requester
-- `i` has the descriptor `fds i` and the address `addr i`. The requests that wait at the replier
-- carry their requester. A datagram is put behind those that wait where it goes, or is lost; a
-- receive call takes the first one, whole; the replier's call times out where none waits.
pub record Network {W : Type 0} (t : Transport W) (d : Datagrams t) (fd : ℤ) (here : t.Addr)
    (size reply_size : ℕ) (fds : ℕ → ℤ) (addr : ℕ → t.Addr) : Type 0 where
  pub requests : W → List (ℕ × Bytes)
  pub inbox : ℕ → W → List Bytes
  pub on_ask :
      (i : ℕ) (m : Bytes) (w : W)
      → let v = (d.send (fds i) m here w).1 in
        ((requests v ≡ requests w ++ (i, m) ∷ []) ⊎ (requests v ≡ requests w))
        × ((j : ℕ) → inbox j v ≡ inbox j w)
  pub on_take :
      (i : ℕ) (m : Bytes) (rest : List (ℕ × Bytes)) (w : W)
      → requests w ≡ (i, m) ∷ rest
      → length m ≡ size
      → let r = d.take fd size w in
        (r.0 ≡ arrives m (addr i)) × (requests r.1 ≡ rest) × ((j : ℕ) → inbox j r.1 ≡ inbox j w)
  pub on_timeout :
      (w : W)
      → requests w ≡ []
      → let r = d.take fd size w in
        (r.0.num ≡ negsuc 0) × (requests r.1 ≡ []) × ((j : ℕ) → inbox j r.1 ≡ inbox j w)
  pub on_reply :
      (i : ℕ) (m : Bytes) (w : W)
      → let v = (d.send fd m (addr i) w).1 in
        (requests v ≡ requests w)
        × ((inbox i v ≡ inbox i w ++ m ∷ []) ⊎ (inbox i v ≡ inbox i w))
        × ((j : ℕ) → j ≢ i → inbox j v ≡ inbox j w)
  pub on_get :
      (i : ℕ) (m : Bytes) (rest : List Bytes) (w : W)
      → inbox i w ≡ m ∷ rest
      → length m ≡ reply_size
      → let r = d.take (fds i) reply_size w in
        (r.0.num ≡ pos (length m))
        × (r.0.written ≡ m)
        × (inbox i r.1 ≡ rest)
        × (requests r.1 ≡ requests w)
        × ((j : ℕ) → j ≢ i → inbox j r.1 ≡ inbox j w)

module _ {W : Type 0} (t : Transport W) (fd : ℤ) (here : t.Addr) (size reply_size : ℕ) (fds : ℕ → ℤ)
    (f : Bytes → Bytes) where
  abbrev pub replier : Reply W
  replier = record { callback = some (computes f); msg_size = size }

  -- The world after the first half of `request`, after a round of the replier, and after the second
  -- half of `request`.
  abbrev pub asked : ℕ → Bytes → W → W
  asked i m w = (t.sendto m here (at_world (fds i) w)).1.world

  abbrev pub served : W → W
  served w = (once t replier (at_world fd w)).1.world

  abbrev pub got : ℕ → W → Outcome Bytes × W
  got i w = let r = t.recv reply_size (at_world (fds i) w) in (r.0, r.1.world)

  -- The worlds that an interleaving leads to, with the requests that were sent and the replies that
  -- were returned, in order. A receive starts only where something waits for it.
  pub data Reach (inbox : ℕ → W → List Bytes) (w0 : W)
      : W → List (ℕ × Bytes) → List (ℕ × Bytes) → Type 0 where
    start : Reach inbox w0 w0 [] []
    asks :
        {w : W} {sent back : List (ℕ × Bytes)} (i : ℕ) (m : Bytes)
        → length m ≡ size
        → Reach inbox w0 w sent back
        → Reach inbox w0 (asked i m w) (sent ++ (i, m) ∷ []) back
    serves :
        {w : W} {sent back : List (ℕ × Bytes)}
        → Reach inbox w0 w sent back
        → Reach inbox w0 (served w) sent back
    gets :
        {w : W} {sent back : List (ℕ × Bytes)} (i : ℕ) (m : Bytes)
        → inbox i w ≢ []
        → (got i w).0 ≡ returned m
        → Reach inbox w0 w sent back
        → Reach inbox w0 (got i w).1 sent (back ++ (i, m) ∷ [])
