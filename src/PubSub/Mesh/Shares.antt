-- ===== src/PubSub/Mesh/Shares.antt =====
-- Every subscriber gets its share of what is published, in order.
use marko_cpp.Prelude.{
  Thinned, done, Thinned-lost_last, Thinned-kept_last, All, All-append, Bool-cases, Bool, false,
  if◌then◌else◌, ◌==◌, ℕ, ◌<◌, Bytes, List, [], ◌∷◌, ◌++◌, append-nil, append_assoc, replicate,
  length, ℤ, pos, is_neg, ◌≡◌, ◌≢◌, refl, sym, subst, ap, ◌∙◌, ◌⊎◌, inl, inr, arith,
}
use marko_cpp.Outcome.{returned}
use marko_cpp.Loop.Queue.{at_world}
use marko_cpp.Machine.{Sock}
use marko_cpp.Transport.{Transport}
use marko_cpp.Transport.Datagrams.{Datagrams}
use marko_cpp.SocketUdp.{received}
use marko_cpp.RequestReply.Exchange.{received_whole}
use marko_cpp.RequestReply.Ledger.{same_or_other}
use marko_cpp.PubSub.{Publisher, once, call_all}
use marko_cpp.PubSub.Delivery.{sends, publish-sends}
use marko_cpp.PubSub.Audience.{copies, put_behind}
use marko_cpp.PubSub.Mesh.{
  Network, addressed, published, subscriber, polled, Reach, start, publishes, polls,
}

addressed-concat :
    {A : Type 0} (gets : A → ℕ → Bool) (r : ℕ) (sent : List (List A × Bytes)) (addrs : List A)
    (msg : Bytes)
    → addressed gets r (sent ++ (addrs, msg) ∷ [])
      ≡ addressed gets r sent ++ replicate (copies gets r addrs) msg
addressed-concat gets r [] addrs msg = append-nil (replicate (copies gets r addrs) msg)
addressed-concat gets r ((others, m) ∷ sent) addrs msg =
    rw (addressed-concat gets r sent addrs msg)
      (sym (append_assoc (replicate (copies gets r others) m) (addressed gets r sent) _))

module _ {W : Type 0} (t : Transport W) (d : Datagrams t) (gets : t.Addr → ℕ → Bool) (fds : ℕ → ℤ)
    (size : ℕ) (note : ℕ → Bytes → W → W) (net : Network t d gets fds size note)
    (nonempty : 0 < size) where
  -- What a subscriber's callback saw, and behind it what still waits there, is `ys` less what was
  -- lost, and what waits has the size that the subscriber asks for.
  pub record Share (r : ℕ) (w : W) (ys : List Bytes) : Type 0 where
    pub thinned : Thinned (net.seen r w ++ net.waiting r w) ys
    pub sized : All (λ m. length m ≡ size) (net.waiting r w)

  Share-same :
      (r : ℕ) {w v : W} {ys : List Bytes}
      → net.seen r v ≡ net.seen r w
      → net.waiting r v ≡ net.waiting r w
      → Share r w ys
      → Share r v ys
  Share-same r saw waits share = record {
    thinned = rw (saw, waits) share.thinned;
    sized = rw waits share.sized;
  }

  -- A datagram for one address.
  Share-send :
      (fd : ℤ) (msg : Bytes) (a : t.Addr) (r : ℕ) {w : W} {ys : List Bytes}
      → length msg ≡ size
      → Share r w ys
      → Share r (d.send fd msg a w).1 (if gets a r then ys ++ msg ∷ [] else ys)
  Share-send fd msg a r {w} {ys} full share =
      let (saw, arrived) = net.on_send fd msg a w r in
      elim arrived [
        | inl same ↦ Share-same r saw same (elim (Bool-cases (gets a r)) [
          | inl e ↦
              rw e (record { thinned = Thinned-lost_last msg share.thinned; sized = share.sized })
          | inr e ↦ rw e share
        ])
        | inr (e, behind) ↦ rw e (record {
          thinned =
              rw (saw, behind, ← append_assoc (net.seen r w) (net.waiting r w) (msg ∷ []))
                (Thinned-kept_last msg share.thinned);
          sized = rw behind (All-append _ (net.waiting r w) (msg ∷ []) share.sized (full, tt));
        })
      ]

  Share-sends :
      (fd : ℤ) (msg : Bytes) (addrs : List t.Addr) (r : ℕ) {w : W} {ys : List Bytes}
      → length msg ≡ size
      → Share r w ys
      → Share r (sends t d fd msg addrs w) (ys ++ replicate (copies gets r addrs) msg)
  unfolding sends
  Share-sends fd msg [] r {w} {ys} full share = rw append-nil share
  Share-sends fd msg (a ∷ addrs) r {w} {ys} full share =
      rw (← put_behind (gets a r) ys msg (copies gets r addrs))
        (Share-sends fd msg addrs r full (Share-send fd msg a r full share))

  received_full : (msg : Bytes) → length msg ≡ size → received size (pos (length msg)) msg ≡ msg
  received_full msg full =
      subst (λ n. received n (pos (length msg)) msg ≡ msg) full
        (received_whole msg (omega (arith, full)))

  -- A round whose receive call gave a message, or none.
  round_of :
      (r : ℕ) (msg : Bytes) (w v : W)
      → t.recv size (at_world (fds r) w) ≡ (returned msg, at_world (fds r) v)
      → (length msg == 0) ≡ false
      → once t (subscriber t gets fds size note r) (at_world (fds r) w)
        ≡ (returned tt, at_world (fds r) (note r msg v))
  unfolding once call_all
  round_of r msg w v taken some = rw (taken, some) refl

  round_of_nothing :
      (r : ℕ) (w : W) (v : Sock W)
      → t.recv size (at_world (fds r) w) ≡ (returned [], v)
      → once t (subscriber t gets fds size note r) (at_world (fds r) w) ≡ (returned tt, v)
  unfolding once
  round_of_nothing r w v none = rw none refl

  polled_message :
      (r : ℕ) (msg : Bytes) (rest : List Bytes) (w : W)
      → net.waiting r w ≡ msg ∷ rest
      → length msg ≡ size
      → polled t gets fds size note r w ≡ note r msg (d.take (fds r) size w).1
  polled_message r msg rest w e full =
      let got = net.on_receive r msg rest w e full in
      let taken : t.recv size (at_world (fds r) w)
          ≡ (returned msg, at_world (fds r) (d.take (fds r) size w).1) =
        d.recv_takes size (at_world (fds r) w) (ap is_neg (got.0))
        ∙ rw (got.0, got.1, received_full msg full) refl in
      ap (λ x. x.1.world) (round_of r msg w (d.take (fds r) size w).1 taken (ground (arith, full)))

  polled_nothing :
      (r : ℕ) (w : W)
      → (t.recv size (at_world (fds r) w)).0 ≡ returned []
      → polled t gets fds size note r w ≡ (t.recv size (at_world (fds r) w)).1.world
  polled_nothing r w none =
      let after = (t.recv size (at_world (fds r) w)).1 in
      ap (λ x. x.1.world) (round_of_nothing r w after (λ i. (none i, after)))

  published_lem :
      (fd : ℤ) (p : Publisher t) (msg : Bytes) (w : W)
      → published t gets fds size note fd p msg w ≡ sends t d fd msg p.clientaddrs w
  published_lem fd p msg w = ap (λ x. x.1.world) (publish-sends t d msg p (at_world fd w))

  Share-message :
      (r b : ℕ) (msg : Bytes) (rest : List Bytes) {w : W} {ys : List Bytes}
      → net.waiting r w ≡ msg ∷ rest
      → length msg ≡ size
      → Share b w ys
      → Share b (note r msg (d.take (fds r) size w).1) ys
  Share-message r b msg rest {w} {ys} e full share =
      let (num, written, left, others, saw) = net.on_receive r msg rest w e full in
      let (kept, noted, noted_others) = net.on_note r msg (d.take (fds r) size w).1 in
      elim (same_or_other b r) [
        | inr ne ↦ Share-same b (noted_others b ne ∙ saw b) (kept b ∙ others b ne) share
        | inl same ↦ rw same (record {
          thinned =
              rw (noted, saw r, kept r, left, append_assoc (net.seen r w) (msg ∷ []) rest)
                (rw (same, e) at share.thinned);
          sized = rw (kept r, left) (rw (same, e) at share.sized).1;
        })
      ]

  Share-polled :
      (r b : ℕ) (q : List Bytes) {w : W} {ys : List Bytes}
      → net.waiting r w ≡ q
      → ((net.waiting r w ≢ []) ⊎ ((t.recv size (at_world (fds r) w)).0 ≡ returned []))
      → All (λ m. length m ≡ size) q
      → Share b w ys
      → Share b (polled t gets fds size note r w) ys
  Share-polled r b [] {w} e may sized share = elim may [
    | inl some ↦ absurd (some e)
    | inr none ↦
        let (kept, saw) = net.on_idle r w e none in
        rw (polled_nothing r w none) (Share-same b (saw b) (kept b) share)
  ]
  Share-polled r b (msg ∷ rest) {w} e may sized share =
      rw (polled_message r msg rest w e (sized.0)) (Share-message r b msg rest e (sized.0) share)

  -- Over any socket of datagrams, in every interleaving of `publish` calls of any number of publishers,
  -- whatever addresses each has, with rounds of any number of subscribers, for messages of the
  -- subscribers' size, which is not 0, from a world where nothing was seen and nothing waits, on a
  -- network that may lose datagrams, for each subscriber by itself: what a subscriber's callback saw,
  -- and behind it what still waits there, is what was published to addresses that reach it, once for
  -- each such address and in the order of the calls, less what was lost; nothing that was published to
  -- others only is among it.
  pub Reach-Share :
      {w0 w : W} {sent : List (List t.Addr × Bytes)}
      → ((r : ℕ) → net.seen r w0 ≡ [])
      → ((r : ℕ) → net.waiting r w0 ≡ [])
      → Reach t gets fds size note net.waiting w0 w sent
      → (r : ℕ) → Share r w (addressed gets r sent)
  Reach-Share fresh empty start r = record {
    thinned = rw (fresh r, empty r) done;
    sized = rw (empty r) tt;
  }
  Reach-Share fresh empty (publishes {w} {sent} fd p msg full reach) r =
      rw (addressed-concat gets r sent p.clientaddrs msg, published_lem fd p msg w)
        (Share-sends fd msg p.clientaddrs r full (Reach-Share fresh empty reach r))
  Reach-Share fresh empty (polls k may reach) r =
      let shares = Reach-Share fresh empty reach in
      Share-polled k r _ refl may (shares k).sized (shares r)
