-- ===== src/RequestReply/Network/Shares.antt =====
-- What each requester gets in an interleaving of requesters and a replier
-- (src/include/marko/request_reply.hpp).
use marko_cpp.Prelude.{
  done, ap, subst, ℕ, ◌<◌, Bytes, List, [], ◌∷◌, ◌++◌, All, All-append, length, ℤ, pos, ◌≡◌, ◌≢◌,
  refl, inl, inr, arith,
}
use marko_cpp.Outcome.{returned}
use marko_cpp.Transport.{Transport}
use marko_cpp.Transport.Datagrams.{Datagrams}
use marko_cpp.SocketUdp.{received}
use marko_cpp.Loop.Queue.{at_world}
use marko_cpp.RequestReply.{once}
use marko_cpp.RequestReply.Ledger.{
  by, Own, same_or_other, Own-sent, Own-lost_request, Own-replied, Own-lost_reply, Own-other,
  Own-got, Own-got_other,
}
use marko_cpp.RequestReply.Exchange.{received_whole, answer-computes}
use marko_cpp.RequestReply.{request}
use marko_cpp.RequestReply.Network.{
  Network, replier, asked, served, got, Reach, start, asks, serves, gets,
}

module _ {W : Type 0} (t : Transport W) (d : Datagrams t) (fd : ℤ) (here : t.Addr)
    (size reply_size : ℕ) (fds : ℕ → ℤ) (addr : ℕ → t.Addr) (f : Bytes → Bytes)
    (net : Network t d fd here size reply_size fds addr) (some_size : 0 < size)
    (some_reply : 0 < reply_size)
    (replies : (m : Bytes) → length m ≡ size → length (f m) ≡ reply_size) where
  -- The ledger of each requester holds, and what waits has the sizes that are expected.
  pub record Fair (w : W) (sent back : List (ℕ × Bytes)) : Type 0 where
    pub own : (i : ℕ) → Own f i back (net.inbox i w) (net.requests w) sent
    pub sized : All (λ q. length q.1 ≡ size) (net.requests w)
    pub sized_replies : (i : ℕ) → All (λ m. length m ≡ reply_size) (net.inbox i w)

  asked_lem :
      (i : ℕ) (m : Bytes) (w : W)
      → asked t fd here size reply_size fds f i m w ≡ (d.send (fds i) m here w).1
  asked_lem i m w = ap (λ r. r.1.world) (d.sendto_sends m here (at_world (fds i) w))

  -- `request` is its two halves.
  pub request-got :
      (i : ℕ) (m : Bytes) (w : W)
      → let r = request t (record { msg_size = reply_size }) m here (at_world (fds i) w) in
        (r.0, r.1.world)
        ≡ got t fd here size reply_size fds f i (asked t fd here size reply_size fds f i m w)
  unfolding request
  request-got i m w = rw (asked_lem i m w, d.sendto_sends m here (at_world (fds i) w)) refl

  received_full : (n : ℕ) (m : Bytes) → 0 < n → length m ≡ n → received n (pos (length m)) m ≡ m
  received_full n m nonempty full =
      subst (λ k. received k (pos (length m)) m ≡ m) full (received_whole m (omega (arith, full)))

  once_timeout :
      (w : W)
      → net.requests w ≡ []
      → once t (replier t fd here size reply_size fds f) (at_world fd w)
        ≡ (returned tt, at_world fd (d.take fd size w).1)
  unfolding once received
  once_timeout w e = rw (d.recvfrom_takes size (at_world fd w), (net.on_timeout w e).0) refl

  once_request :
      (i : ℕ) (m : Bytes) (rest : List (ℕ × Bytes)) (w : W)
      → net.requests w ≡ (i, m) ∷ rest
      → length m ≡ size
      → once t (replier t fd here size reply_size fds f) (at_world fd w)
        ≡ (returned tt, at_world fd (d.send fd (f m) (addr i) (d.take fd size w).1).1)
  unfolding once
  once_request i m rest w e full =
      rw
        (
          d.recvfrom_takes size (at_world fd w),
          (net.on_take i m rest w e full).0,
          received_full size m some_size full,
        )
        (answer-computes t d f size m (addr i) (at_world fd (d.take fd size w).1) full some_size)

  served_request :
      (i : ℕ) (m : Bytes) (rest : List (ℕ × Bytes)) (w : W)
      → net.requests w ≡ (i, m) ∷ rest
      → length m ≡ size
      → served t fd here size reply_size fds f w ≡ (d.send fd (f m) (addr i) (d.take fd size w).1).1
  served_request i m rest w e full = ap (λ r. r.1.world) (once_request i m rest w e full)

  served_timeout :
      (w : W)
      → net.requests w ≡ []
      → served t fd here size reply_size fds f w ≡ (d.take fd size w).1
  served_timeout w e = ap (λ r. r.1.world) (once_timeout w e)

  got_lem :
      (i : ℕ) (m : Bytes) (rest : List Bytes) (w : W)
      → net.inbox i w ≡ m ∷ rest
      → length m ≡ reply_size
      → got t fd here size reply_size fds f i w ≡ (returned m, (d.take (fds i) reply_size w).1)
  got_lem i m rest w e full =
      let got = net.on_get i m rest w e full in
      rw
        (
          d.recv_takes reply_size (at_world (fds i) w) (rw (got.0) refl),
          got.0,
          got.1,
          received_full reply_size m some_reply full,
        )
        refl

  Fair-asked :
      (i : ℕ) (m : Bytes) {w : W} {sent back : List (ℕ × Bytes)}
      → length m ≡ size
      → Fair w sent back
      → Fair (asked t fd here size reply_size fds f i m w) (sent ++ (i, m) ∷ []) back
  Fair-asked i m {w} {sent} {back} full fair =
      let (queued, same) = net.on_ask i m w in
      rw (asked_lem i m w) (elim queued [
        | inl e ↦ record {
          own = λ j. rw (e, same j) (Own-sent f j i m (fair.own j));
          sized = rw e (All-append _ (net.requests w) ((i, m) ∷ []) fair.sized (full, tt));
          sized_replies = λ j. rw (same j) (fair.sized_replies j);
        }
        | inr e ↦ record {
          own = λ j. rw (e, same j) (Own-lost_request f j i m (fair.own j));
          sized = rw e fair.sized;
          sized_replies = λ j. rw (same j) (fair.sized_replies j);
        }
      ])

  -- What holds of each inbox when the reply to one requester was sent.
  each_served :
      (i : ℕ) (m : Bytes) (w : W) (P : ℕ → List Bytes → Type 0)
      → ((j : ℕ) → j ≢ i → P j (net.inbox j w))
      → P i (net.inbox i w ++ f m ∷ [])
      → P i (net.inbox i w)
      → (j : ℕ) → P j (net.inbox j (d.send fd (f m) (addr i) w).1)
  each_served i m w P other put lost j =
      let (kept, went, others) = net.on_reply i (f m) w in
      elim (same_or_other j i) [
        | inr ne ↦ rw (others j ne) (other j ne)
        | inl e ↦ rw e (elim went [ inl behind ↦ rw behind put | inr gone ↦ rw gone lost ])
      ]

  Fair-served :
      (q : List (ℕ × Bytes)) {w : W} {sent back : List (ℕ × Bytes)}
      → net.requests w ≡ q
      → Fair w sent back
      → Fair (served t fd here size reply_size fds f w) sent back
  Fair-served [] {w} e fair =
      let (timed_out, none_waits, same) = net.on_timeout w e in
      rw (served_timeout w e) (record {
        own = λ j. rw (none_waits, same j) (rw e at (fair.own j));
        sized = rw none_waits tt;
        sized_replies = λ j. rw (same j) (fair.sized_replies j);
      })
  Fair-served ((i, m) ∷ rest) {w} {sent} {back} e fair =
      let sizes = rw e at fair.sized in
      let (took, left, same) = net.on_take i m rest w e sizes.0 in
      let w1 = (d.take fd size w).1 in
      let kept = (net.on_reply i (f m) w1).0 in
      rw (served_request i m rest w e sizes.0) (record {
        own = λ j.
            rw (kept, left)
              (each_served i m w1 (λ k ib. Own f k back ib rest sent)
                (λ k ne. rw (same k) (Own-other f k i m ne (rw e at (fair.own k))))
                (rw (same i) (Own-replied f i m (rw e at (fair.own i))))
                (rw (same i) (Own-lost_reply f i m (rw e at (fair.own i)))) j);
        sized = rw (kept, left) sizes.1;
        sized_replies = λ j.
            each_served i m w1 (λ k ib. All (λ x. length x ≡ reply_size) ib)
              (λ k ne. rw (same k) (fair.sized_replies k))
              (rw (same i) (
                All-append _ (net.inbox i w) (f m ∷ []) (fair.sized_replies i)
                  (replies m sizes.0, tt)))
              (rw (same i) (fair.sized_replies i)) j;
      })

  Fair-got :
      (i : ℕ) (m : Bytes) (q : List Bytes) {w : W} {sent back : List (ℕ × Bytes)}
      → net.inbox i w ≡ q
      → q ≢ []
      → (got t fd here size reply_size fds f i w).0 ≡ returned m
      → Fair w sent back
      → Fair (got t fd here size reply_size fds f i w).1 sent (back ++ (i, m) ∷ [])
  Fair-got i m [] e some_wait ended fair = absurd (some_wait refl)
  Fair-got i m (x ∷ rest) {w} {sent} {back} e some_wait ended fair =
      let sizes = rw e at (fair.sized_replies i) in
      let taken = got_lem i x rest w e sizes.0 in
      let same : x ≡ m = cc (ended, ap (λ r. r.0) taken) in
      let (num, written, left, kept, others) = net.on_get i x rest w e sizes.0 in
      rw (ap (λ r. r.1) taken, ← same)
        (record {
          own = λ j. rw kept (elim (same_or_other j i) [
            | inr ne ↦ rw (others j ne) (Own-got_other f j i x ne (fair.own j))
            | inl ej ↦ rw (ej, left) (Own-got f i x (rw e at (fair.own i)))
          ]);
          sized = rw kept fair.sized;
          sized_replies = λ j. elim (same_or_other j i) [
            | inr ne ↦ rw (others j ne) (fair.sized_replies j)
            | inl ej ↦ rw (ej, left) sizes.1
          ];
        })

  -- In every interleaving of the sends and the receives of any number of requesters with rounds of
  -- the replier, from a world where nothing waits, for requests and replies of the expected sizes,
  -- which are not 0, over a network that may lose datagrams: what a requester got, and behind it what
  -- still comes, is what the replier's callback makes of this requester's requests, in their order
  -- and once each, less what was lost. Nothing of another requester is among it.
  pub Reach-Fair :
      {w0 w : W} {sent back : List (ℕ × Bytes)}
      → net.requests w0 ≡ []
      → ((i : ℕ) → net.inbox i w0 ≡ [])
      → Reach t fd here size reply_size fds f net.inbox w0 w sent back
      → Fair w sent back
  Reach-Fair none_asked none_told start = record {
    own = λ i. rw (none_told i, none_asked) (record { thinned = unfold by in done });
    sized = rw none_asked tt;
    sized_replies = λ i. rw (none_told i) tt;
  }
  Reach-Fair none_asked none_told (asks i m full r) =
      Fair-asked i m full (Reach-Fair none_asked none_told r)
  Reach-Fair none_asked none_told (serves r) =
      Fair-served _ refl (Reach-Fair none_asked none_told r)
  Reach-Fair none_asked none_told (gets i m some_wait ended r) =
      Fair-got i m _ refl some_wait ended (Reach-Fair none_asked none_told r)
