-- ===== src/RequestReply/Remote.antt =====
-- A replier behind a network (src/include/marko/request_reply.hpp) as what it is for its requester:
-- a function on a state.
use marko_cpp.Prelude.{
  pos, ℕ, ◌<◌, Bytes, List, [], ◌∷◌, ◌++◌, All, length, ℤ, is_neg, some, ◌≡◌, refl, ap, ◌∙◌, subst,
  arith,
}
use marko_cpp.Outcome.{returned}
use marko_cpp.Machine.{M, ◌>>=◌, ret}
use marko_cpp.Loop.Queue.{at_world}
use marko_cpp.Transport.{Transport}
use marko_cpp.Transport.Datagrams.{Datagrams}
use marko_cpp.SocketUdp.{received}
use marko_cpp.RequestReply.{ReplyCallback, Reply, answer, call_callback, once, request}
use marko_cpp.RequestReply.Exchange.{arrives, received_whole}

-- A network without losses between a requester on descriptor `c` and a replier on `s`; `state` is what
-- the replier's callback keeps in the world, which the system's calls leave alone. The requester's
-- receive call waits where nothing is there for it and a request waits at the replier, which makes
-- its round then.
pub record Channel {W X : Type 0} (t : Transport W) (d : Datagrams t) (size_q size_r : ℕ) (c s : ℤ)
    (server client : t.Addr) (round : W → W) (state : W → X) : Type 0 where
  pub requests : W → List Bytes
  pub inbox : W → List Bytes
  pub on_ask :
      (m : Bytes) (w : W)
      → let v = (d.send c m server w).1 in
        (requests v ≡ requests w ++ m ∷ []) × (inbox v ≡ inbox w) × (state v ≡ state w)
  pub on_take :
      (m : Bytes) (rest : List Bytes) (w : W)
      → requests w ≡ m ∷ rest
      → length m ≡ size_q
      → let r = d.take s size_q w in
        (r.0 ≡ arrives m client)
        × (requests r.1 ≡ rest)
        × (inbox r.1 ≡ inbox w)
        × (state r.1 ≡ state w)
  pub on_reply :
      (m : Bytes) (w : W)
      → let v = (d.send s m client w).1 in
        (requests v ≡ requests w) × (inbox v ≡ inbox w ++ m ∷ []) × (state v ≡ state w)
  pub on_get :
      (m : Bytes) (rest : List Bytes) (w : W)
      → inbox w ≡ m ∷ rest
      → length m ≡ size_r
      → let r = d.take c size_r w in
        (r.0 ≡ arrives m server)
        × (requests r.1 ≡ requests w)
        × (inbox r.1 ≡ rest)
        × (state r.1 ≡ state w)
  pub waits :
      (m : Bytes) (rest : List Bytes) (w : W)
      → requests w ≡ m ∷ rest
      → length m ≡ size_q
      → inbox w ≡ []
      → d.take c size_r w ≡ d.take c size_r (round w)

-- The calls of a list of requests, one behind the other, and what they return.
unfoldable pub request_all :
    {W : Type 0} (t : Transport W) → ℕ → t.Addr → List Bytes → M W (List Bytes)
request_all t size server [] = ret []
request_all t size server (m ∷ ms) = do
  let rest = request_all t size server ms
  reply ← request t (record { msg_size = size }) m server
  replies ← rest
  ret (reply ∷ replies)

-- The same calls of a function on a state.
abbrev pub call_each : {X : Type 0} → (Bytes → X → Bytes × X) → List Bytes → X → List Bytes × X
call_each serve [] x = ([], x)
call_each serve (m ∷ ms) x =
    let r = serve m x in let rest = call_each serve ms r.1 in (r.0 ∷ rest.0, rest.1)

module _ {W : Type 0} (t : Transport W) (d : Datagrams t) (size_q size_r : ℕ) (some_q : 0 < size_q)
    (some_r : 0 < size_r) (c s : ℤ) (server client : t.Addr) (cb : ReplyCallback W)
    (replier : Reply W)
    (registered : replier ≡ record { callback = some cb; msg_size = size_q }) where
  abbrev pub round : W → W
  round w = (once t replier (at_world s w)).1.world

  received_sized :
      (size : ℕ) (m : Bytes) → length m ≡ size → 0 < size → received size (pos (length m)) m ≡ m
  received_sized size m full some_size =
      subst (λ n. received n (pos (length m)) m ≡ m) full
        (received_whole m (omega (arith, full, some_size)))

  round_answers :
      (m reply : Bytes) (w w1 w2 : W)
      → length m ≡ size_q
      → d.take s size_q w ≡ (arrives m client, w1)
      → cb m (at_world s w1) ≡ (returned reply, at_world s w2)
      → once t replier (at_world s w) ≡ (returned tt, at_world s (d.send s reply client w2).1)
  unfolding once answer call_callback
  round_answers m reply w w1 w2 full taken handled =
      rw
        (
          registered,
          d.recvfrom_takes size_q (at_world s w),
          taken,
          received_sized size_q m full some_q,
        )
        (ground (arith, full, handled, d.sendto_sends reply client (at_world s w2)))

  request_gets :
      (m reply : Bytes) (w w1 : W)
      → length reply ≡ size_r
      → d.take c size_r (d.send c m server w).1 ≡ (arrives reply server, w1)
      → request t (record { msg_size = size_r }) m server (at_world c w)
        ≡ (returned reply, at_world c w1)
  unfolding request
  request_gets m reply w w1 full got =
      let asked = (d.send c m server w).1 in
      rw (d.sendto_sends m server (at_world c w)) (
        d.recv_takes size_r (at_world c asked) (ap (λ r. is_neg r.0.num) got)
        ∙ rw (got, received_sized size_r reply full some_r) refl)

  module _ {X : Type 0} (serve : Bytes → X → Bytes × X) (state : W → X)
      (ch : Channel t d size_q size_r c s server client round state) where
    abbrev Idle : W → Type 0
    Idle w = (ch.requests w ≡ []) × (ch.inbox w ≡ [])

    -- What the callback does with a request of the right size: it returns what the function gives
    -- and keeps the state that it leaves, and no message comes or goes.
    abbrev pub Handles : Type 0
    Handles =
        (m : Bytes) (w : W)
        → length m ≡ size_q
        → (length (serve m (state w)).0 ≡ size_r)
          × (v : W) × (cb m (at_world s w) ≡ (returned (serve m (state w)).0, at_world s v))
          × (state v ≡ (serve m (state w)).1)
          × (ch.requests v ≡ ch.requests w)
          × (ch.inbox v ≡ ch.inbox w)

    -- One call.
    pub request-serve :
        (handles : Handles) (m : Bytes) (w : W)
        → length m ≡ size_q
        → Idle w
        → (v : W) × (request t (record { msg_size = size_r }) m server (at_world c w)
            ≡ (returned (serve m (state w)).0, at_world c v))
          × (state v ≡ (serve m (state w)).1)
          × Idle v
    request-serve handles m w full (none_asked, none_told) =
        let asked = (d.send c m server w).1 in
        let (a1, a2, a3) = ch.on_ask m w in
        let queued : ch.requests asked ≡ m ∷ [] = a1 ∙ rw none_asked refl in
        let taken = d.take s size_q asked in
        let (t0, t1, t2, t3) = ch.on_take m [] asked queued full in
        let (sized, w2, handled, h3, h1, h2) = handles m taken.1 full in
        let same : state taken.1 ≡ state w = t3 ∙ a3 in
        let reply = (serve m (state taken.1)).0 in
        let sent = (d.send s reply client w2).1 in
        let (r1, r2, r3) = ch.on_reply reply w2 in
        let boxed : ch.inbox sent ≡ reply ∷ [] = r2 ∙ rw (h2, t2, a2, none_told) refl in
        let got = d.take c size_r sent in
        let (g0, g1, g2, g3) = ch.on_get reply [] sent boxed sized in
        let replied =
          round_answers m reply asked taken.1 w2 full (ap (λ x. (x, taken.1)) t0) handled in
        let comes : d.take c size_r asked ≡ (arrives reply server, got.1) =
          ch.waits m [] asked queued full (a2 ∙ none_told)
          ∙ (ap (λ r. d.take c size_r r.1.world) replied ∙ ap (λ x. (x, got.1)) g0) in
        (
          got.1,
          subst
              (λ x.
                request t (record { msg_size = size_r }) m server (at_world c w)
                ≡ (returned (serve m x).0, at_world c got.1))
              same (request_gets m reply w got.1 sized comes),
          g3 ∙ (r3 ∙ (h3 ∙ ap (λ x. (serve m x).1) same)),
          (g1 ∙ (r1 ∙ (h1 ∙ t1)), g2),
        )

    -- Over any socket of datagrams, on a network without losses, for requests of the size that the
    -- replier expects and replies of the size that the requester expects, neither of them 0, from a
    -- world where nothing waits: a list of requests returns what the same calls of the function
    -- return, one behind the other on the state, which they leave as these calls do; and nothing
    -- waits at the end. So a replier behind the network is a function on its state.
    pub request_all-call_each :
        (handles : Handles) (ms : List Bytes) (w : W)
        → All (λ m. length m ≡ size_q) ms
        → ch.requests w ≡ []
        → ch.inbox w ≡ []
        → (v : W) × (request_all t size_r server ms (at_world c w)
            ≡ (returned (call_each serve ms (state w)).0, at_world c v))
          × (state v ≡ (call_each serve ms (state w)).1)
          × (ch.requests v ≡ [])
          × (ch.inbox v ≡ [])
    unfolding request_all
    request_all-call_each handles [] w full none_asked none_told =
        (w, refl, refl, none_asked, none_told)
    request_all-call_each handles (m ∷ ms) w full none_asked none_told =
        let (v, ran, kept, (a, b)) = request-serve handles m w full.0 (none_asked, none_told) in
        let (u, rest, left, a1, b1) = request_all-call_each handles ms v full.1 a b in
        (u, rw (ran, rest, kept) refl, left ∙ ap (λ x. (call_each serve ms x).1) kept, a1, b1)
