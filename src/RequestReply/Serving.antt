-- ===== src/RequestReply/Serving.antt =====
-- Reply's `loop(Event &event)` (src/include/marko/request_reply.hpp) against the requests that wait at
-- its socket.
use marko_cpp.Prelude.{
  ◌∙◌, ap, ◌-◌, ◌≤◌, ℕ, ◌+◌, ◌<◌, Bytes, List, [], ◌∷◌, ◌++◌, map, All, length, replicate, ltb,
  Bool, true, ℤ, some, ◌≡◌, arith,
}
use marko_cpp.Outcome.{returned}
use marko_cpp.Transport.{Transport}
use marko_cpp.Transport.Datagrams.{Datagrams}
use marko_cpp.Loop.Queue.{at_world, Takes, loop-queue}
use marko_cpp.RequestReply.{Reply, once, reply_loop}
use marko_cpp.RequestReply.Exchange.{computes, arrives, once_answers}

-- What a network shows of a descriptor: the requests that wait, with their senders, and the replies
-- that were sent, with their receivers. A request that fits arrives whole.
pub record Mailbox {W : Type 0} (t : Transport W) (d : Datagrams t) (fd : ℤ) (size : ℕ)
    : Type 0 where
  pub requests : W → List (Bytes × t.Addr)
  pub replies : W → List (Bytes × t.Addr)
  pub on_take :
      (m : Bytes) (from : t.Addr) (rest : List (Bytes × t.Addr)) (w : W)
      → requests w ≡ (m, from) ∷ rest
      → length m ≤ size
      → let r = d.take fd size w in
        (r.0 ≡ arrives m from) × (requests r.1 ≡ rest) × (replies r.1 ≡ replies w)
  pub on_send :
      (m : Bytes) (to : t.Addr) (w : W)
      → let v = (d.send fd m to w).1 in
        (requests v ≡ requests w) × (replies v ≡ replies w ++ (m, to) ∷ [])

module _ {W : Type 0} (t : Transport W) (d : Datagrams t) (fd : ℤ) (size : ℕ)
    (box : Mailbox t d fd size) (f : Bytes → Bytes) where
  abbrev pub replier : Reply W
  replier = record { callback = some (computes f); msg_size = size }

  abbrev pub Fits : Bytes × t.Addr → Type 0
  Fits q = (0 < length q.0) × (length q.0 ≤ size)

  -- The reply to a request, which is filled up with zeros first.
  abbrev pub reply_to : Bytes × t.Addr → Bytes × t.Addr
  reply_to q = (f (q.0 ++ replicate (size - length q.0) 0), q.1)

  replier_takes : Takes fd (once t replier) box.requests box.replies Fits reply_to
  replier_takes ([], from) rest w e (some_bytes, fits) = absurd (omega arith)
  replier_takes (c ∷ m, from) rest w e (some_bytes, fits) =
      let got = box.on_take (c ∷ m) from rest w e fits in
      let r = d.take fd size w in
      let reply = (reply_to (c ∷ m, from)).0 in
      let sent = box.on_send reply from r.1 in
      (
        (d.send fd reply from r.1).1,
        once_answers t d f size (length m) (at_world fd w) (ap (λ r. r.num) got.0)
              (ap (λ r. length r.written) got.0) fits
            ∙ rw (got.0),
        sent.0 ∙ got.1,
        sent.1 ∙ rw (got.2),
      )

  -- Where the event is set as long as fewer than `limit` replies were sent, and enough requests wait
  -- to reach it, each with at least one byte and at most the size that the replier expects: the loop
  -- of a replier whose callback computes its reply from the message alone ends, having sent to each
  -- requester, in the order of the requests, what the callback makes of the request filled up with
  -- zeros; the other requests still wait. Fuel of one more than the number of requests is enough.
  pub reply_loop-answers :
      (is_set : W → Bool) (limit : ℕ)
      → ((w : W) → is_set w ≡ ltb (length (box.replies w)) limit)
      → (qs rest : List (Bytes × t.Addr)) (w : W) → box.requests w ≡ qs ++ rest
      → All Fits qs
      → length (box.replies w) + length qs ≡ limit
      → (fuel : ℕ) → length qs < fuel
      → (v : W) × (reply_loop t is_set replier fuel (at_world fd w)
          ≡ (returned true, at_world fd v))
        × (box.replies v ≡ box.replies w ++ map reply_to qs)
        × (box.requests v ≡ rest)
  unfolding reply_loop
  reply_loop-answers =
      loop-queue fd (once t replier) box.requests box.replies Fits reply_to replier_takes
