-- ===== src/Gtests/Broadcast/Clients.antt =====
-- In gtests/test_bc.cpp no test fails, and every client gets through.
use marko_cpp.Prelude.{
  inr, inl, ℕ, Bytes, List, [], ◌∷◌, ◌++◌, map, length, ℤ, ◌≡◌, ◌≢◌, refl, sym, ap, ◌∙◌, arith,
  append_assoc,
}
use marko_cpp.Outcome.{returned}
use marko_cpp.Sockaddr.{InetAddr}
use marko_cpp.Os.{Os, inet_at}
use marko_cpp.SocketUdp.{recv}
use marko_cpp.SocketUdp.Laws.{sendto_lem}
use marko_cpp.SocketBc.{cast}
use marko_cpp.Loop.Queue.{at_world}
use marko_cpp.Message.{Subscription, pack}
use marko_cpp.Message.Memory.{subscription, unpack-pack}
use marko_cpp.Message.Received.{length-pack, received_packed}
use marko_cpp.RequestReply.Ledger.{same_or_other}
use marko_cpp.Gtests.{Harness}
use marko_cpp.Prelude.{append-nil, subst}
use marko_cpp.Gtests.Broadcast.{pos, true, cast_data, check_data, cast_one, check_one}
use marko_cpp.Gtests.Broadcast.Air.{
  Air, set_left, server_round, client_round, Reach, start, casts, checks,
}

set_left_own :
    (c : ℕ) (rest : List Subscription) (left : ℕ → List Subscription)
    → set_left c rest left c ≡ rest
set_left_own c rest left = ground arith

set_left_other :
    (c : ℕ) (rest : List Subscription) (left : ℕ → List Subscription) (b : ℕ)
    → b ≢ c
    → set_left c rest left b ≡ left b
set_left_other c rest left b ne = ground arith

module _ (os : Os) (h : Harness os) (garbage : Bytes) (from : ℤ) (to : InetAddr) (fds : ℕ → ℤ)
    (full : length garbage ≡ 2) (air : Air os h from to fds) (all : List Subscription)
    (w0 : os.World) where
  pub record Passes (ds : List Subscription) (left : ℕ → List Subscription) (w : os.World)
      : Type 0 where
    pub in_order :
        (c : ℕ) → air.waiting c w ++ map (pack subscription) ds ≡ map (pack subscription) (left c)
    pub none_failed : air.failures w ≡ air.failures w0

  server_round_lem :
      (d : Subscription) (w : os.World)
      → server_round os h garbage from to fds d w ≡ (
        returned tt,
        at_world from
            (h.nap (pos 100000) (os.send_to from (pack subscription d) 0 (inet_at to) w).1),
      )
  unfolding cast_one cast
  server_round_lem d w = rw (sendto_lem os (pack subscription d) to 0 (at_world from w)) refl

  Passes-server_round :
      {d : Subscription} {ds : List Subscription} {left : ℕ → List Subscription} {w : os.World}
      → Passes (d ∷ ds) left w
      → Passes ds left (server_round os h garbage from to fds d w).1.world
  Passes-server_round {d} {ds} {left} {w} p =
      let packed = pack subscription d in
      let sent = air.on_send packed w in
      let napped = air.on_nap (pos 100000) (os.send_to from packed 0 (inet_at to) w).1 in
      rw (server_round_lem d w) (record {
        in_order = λ c.
            rw (napped.0 c, sent.0 c)
              (append_assoc (air.waiting c w) (packed ∷ []) _ ∙ p.in_order c);
        none_failed = napped.1 ∙ (sent.1 ∙ p.none_failed);
      })

  -- What waits first at a client is the packed value that it compares with.
  abbrev Head : List Subscription → ℕ → Subscription → List Subscription → os.World → Type 0
  Head ds c d rest w =
      (ws : List Bytes) × (air.waiting c w ≡ pack subscription d ∷ ws)
      × (ws ++ map (pack subscription) ds ≡ map (pack subscription) rest)

  head_of :
      (packed : Bytes) (xs ys zs : List Bytes)
      → xs ≢ []
      → xs ++ ys ≡ packed ∷ zs
      → (ws : List Bytes) × (xs ≡ packed ∷ ws) × (ws ++ ys ≡ zs)
  head_of packed [] ys zs some e = absurd (some refl)
  head_of packed (x ∷ ws) ys zs some e = (ws, cc, cc)

  Passes-Head :
      {ds : List Subscription} {left : ℕ → List Subscription} {w : os.World} (c : ℕ)
      (d : Subscription) (rest : List Subscription)
      → left c ≡ d ∷ rest
      → air.waiting c w ≢ []
      → Passes ds left w
      → Head ds c d rest w
  Passes-Head {ds} {left} {w} c d rest e some p =
      head_of (pack subscription d) (air.waiting c w) (map (pack subscription) ds)
        (map (pack subscription) rest) some (p.in_order c ∙ rw e refl)

  received_round :
      (c : ℕ) (d : Subscription) (ws : List Bytes) (w : os.World)
      → air.waiting c w ≡ pack subscription d ∷ ws
      → client_round os h garbage from to fds c d w ≡ (
        returned tt,
        at_world (fds c) (h.expect true (h.expect true (os.recvfrom_in (fds c) 2 0 w).1)),
      )
  unfolding check_one recv
  received_round c d ws w e =
      let got = air.on_receive c (pack subscription d) ws w e (length-pack subscription d) in
      rw
        (
          got.0,
          got.1,
          received_packed subscription d (omega arith),
          unpack-pack subscription garbage d full,
        )
        (ground arith)

  Passes-client_round :
      {ds : List Subscription} {left : ℕ → List Subscription} {w : os.World} (c : ℕ)
      (d : Subscription) (rest : List Subscription)
      → left c ≡ d ∷ rest
      → air.waiting c w ≢ []
      → Passes ds left w
      → Passes ds (set_left c rest left) (client_round os h garbage from to fds c d w).1.world
  Passes-client_round {ds} {left} {w} c d rest e some p =
      let (ws, first, behind) = Passes-Head c d rest e some p in
      let (n, m, own, other, failed) =
        air.on_receive c (pack subscription d) ws w first (length-pack subscription d) in
      let w1 = (os.recvfrom_in (fds c) 2 0 w).1 in
      let once = air.on_expect w1 in
      let twice = air.on_expect (h.expect true w1) in
      rw (received_round c d ws w first) (record {
        in_order = λ b. elim (same_or_other b c) [
          | inl same ↦ rw (twice.0 b, once.0 b, same, own, set_left_own c rest left) behind
          | inr ne ↦
              rw (twice.0 b, once.0 b, other b ne, set_left_other c rest left b ne) (p.in_order b)
        ];
        none_failed = twice.1 ∙ (once.1 ∙ (failed ∙ p.none_failed));
      })

  -- However the rounds of the server and of the clients interleave, no test has failed, and what
  -- waits at a client followed by what the server has still to send is what the client has still to
  -- compare, packed, in order. Nothing waits at first.
  pub Reach-Passes :
      ((c : ℕ) → air.waiting c w0 ≡ [])
      → {ds : List Subscription} {left : ℕ → List Subscription} {w : os.World}
      → Reach os h garbage from to fds air.waiting all w0 ds left w
      → Passes ds left w
  Reach-Passes fresh start = record { in_order = λ c. rw (fresh c) refl; none_failed = refl }
  Reach-Passes fresh (casts r) = Passes-server_round (Reach-Passes fresh r)
  Reach-Passes fresh (checks c d rest e some r) =
      Passes-client_round c d rest e some (Reach-Passes fresh r)

  -- The end of the server's loop.
  cast_rest :
      (ds : List Subscription) {left : ℕ → List Subscription} {w : os.World}
      → Passes ds left w
      → (u : os.World) × (cast_data os h to ds (at_world from w) ≡ (returned tt, at_world from u))
        × Passes [] left u
  unfolding cast_data
  cast_rest [] {w} p = (w, refl, p)
  cast_rest (d ∷ ds) {w} p =
      let (u, ran, passes) = cast_rest ds (Passes-server_round p) in
      (
        u,
        rw (server_round_lem d w) (
            subst (λ v. cast_data os h to ds (at_world from v) ≡ (returned tt, at_world from u))
              (ap (λ x. x.1.world) (server_round_lem d w)) ran),
        passes,
      )

  -- The end of the loop of a client for which all that it needs waits.
  check_rest :
      (c : ℕ) (xs : List Subscription) (w : os.World)
      → air.waiting c w ≡ map (pack subscription) xs
      → (t : os.World) × (check_data os h garbage xs (at_world (fds c) w)
          ≡ (returned tt, at_world (fds c) t))
        × (air.failures t ≡ air.failures w)
        × (air.waiting c t ≡ [])
  unfolding check_data
  check_rest c [] w e = (w, refl, refl, e)
  check_rest c (d ∷ xs) w e =
      let ws = map (pack subscription) xs in
      let (n, m, own, other, failed) =
        air.on_receive c (pack subscription d) ws w e (length-pack subscription d) in
      let w1 = (os.recvfrom_in (fds c) 2 0 w).1 in
      let once = air.on_expect w1 in
      let twice = air.on_expect (h.expect true w1) in
      let (t, ran, none, empty) =
        check_rest c xs (h.expect true (h.expect true w1)) (twice.0 c ∙ (once.0 c ∙ own)) in
      (t, rw (received_round c d ws w e) ran, none ∙ (twice.1 ∙ (once.1 ∙ failed)), empty)

  -- With two bytes of memory for what is unpacked, on a broadcast network without losses where nothing
  -- waits at first: however rounds of the server and of any number of clients were interleaved so far,
  -- the server's loop ends normally, behind it the loop of each client over what it has left does, no
  -- test has failed, and nothing is left at the client.
  pub Reach-completes :
      ((c : ℕ) → air.waiting c w0 ≡ [])
      → {ds : List Subscription} {left : ℕ → List Subscription} {w : os.World}
      → Reach os h garbage from to fds air.waiting all w0 ds left w
      → (c : ℕ)
      → (u t : os.World) × (cast_data os h to ds (at_world from w) ≡ (returned tt, at_world from u))
        × (check_data os h garbage (left c) (at_world (fds c) u)
            ≡ (returned tt, at_world (fds c) t))
        × (air.failures t ≡ air.failures w0)
        × (air.waiting c t ≡ [])
  Reach-completes fresh {ds} {left} r c =
      let (u, sent, p) = cast_rest ds (Reach-Passes fresh r) in
      let (t, ran, none, empty) =
        check_rest c (left c) u (sym (append-nil (air.waiting c u)) ∙ p.in_order c) in
      (u, t, sent, ran, none ∙ p.none_failed, empty)
