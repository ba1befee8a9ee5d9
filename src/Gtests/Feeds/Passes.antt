-- ===== src/Gtests/Feeds/Passes.antt =====
-- No test of gtests/test_ps.cpp fails, over any socket of datagrams.
use marko_cpp.Prelude.{
  true, false, ◌==◌, Bool, ap, sym, ◌∙◌, ℕ, suc, ◌<◌, Bytes, List, [], ◌∷◌, ◌++◌, map, append-nil,
  append_assoc, length, ℤ, pos, is_neg, ◌≡◌, refl, arith, subst,
}
use marko_cpp.Outcome.{returned}
use marko_cpp.Os.{Os}
use marko_cpp.Loop.Queue.{at_world}
use marko_cpp.Transport.{Transport}
use marko_cpp.Transport.Datagrams.{Datagrams}
use marko_cpp.Message.{Layout, pack}
use marko_cpp.Message.Memory.{unpack-pack}
use marko_cpp.Message.Received.{length-pack, received_packed}
use marko_cpp.PubSub.{once, new_subscriber, register_cb, call_all}
use marko_cpp.PubSub.Delivery.{sends, publish-sends}
use marko_cpp.Gtests.{Harness}
use marko_cpp.Gtests.Feeds.{DataT, Counter, at, callback, subscriber, poll_all, publish_all}

-- A network without losses from the publisher on descriptor `p` to the subscriber on `s`, which is
-- bound to `here`; and the counter, which nothing else touches. A test that holds is not counted as
-- a failure.
pub record Stream (os : Os) (h : Harness os) (i : Counter os.World) (t : Transport os.World)
    (d : Datagrams t) (size : ℕ) (p s : ℤ) (here : t.Addr) : Type 0 where
  pub waiting : os.World → List Bytes
  pub failures : os.World → ℕ
  pub on_send :
      (m : Bytes) (w : os.World)
      → let v = (d.send p m here w).1 in
        (waiting v ≡ waiting w ++ m ∷ []) × (failures v ≡ failures w) × (i.value v ≡ i.value w)
  pub on_receive :
      (m : Bytes) (rest : List Bytes) (w : os.World)
      → waiting w ≡ m ∷ rest
      → length m ≡ size
      → let r = d.take s size w in
        (r.0.num ≡ pos (length m))
        × (r.0.written ≡ m)
        × (waiting r.1 ≡ rest)
        × (failures r.1 ≡ failures w)
        × (i.value r.1 ≡ i.value w)
  pub on_expect :
      (w : os.World)
      → let v = h.expect true w in
        (waiting v ≡ waiting w) × (failures v ≡ failures w) × (i.value v ≡ i.value w)
  pub on_nap :
      (usec : ℤ) (w : os.World)
      → let v = h.nap usec w in
        (waiting v ≡ waiting w) × (failures v ≡ failures w) × (i.value v ≡ i.value w)
  pub on_bump :
      (w : os.World)
      → let v = i.bump w in
        (waiting v ≡ waiting w) × (failures v ≡ failures w) × (i.value v ≡ suc (i.value w))

-- The elements of `xs` from the `n`-th start with `ds`.
abbrev pub From : {A : Type 0} → List A → ℕ → List A → Type 0
From xs n [] = Unit {0}
From xs n (d ∷ ds) = (at xs n ≡ returned d) × From xs (suc n) ds

module _ (os : Os) (h : Harness os) (i : Counter os.World) {Int : Type 0} (eq : Int → Int → Bool)
    (eq_same : (n : Int) → eq n n ≡ true) (l : Layout (DataT Int)) (garbage : Bytes)
    (full : length garbage ≡ l.size) (some_size : 0 < l.size) (test_data : List (DataT Int))
    (t : Transport os.World) (d : Datagrams t) (here : t.Addr) (p s : ℤ)
    (stream : Stream os h i t d l.size p s here) where
  get_value :
      (v : DataT Int) (rest : List Bytes) (w : os.World)
      → stream.waiting w ≡ pack l v ∷ rest
      → t.recv l.size (at_world s w) ≡ (returned (pack l v), at_world s (d.take s l.size w).1)
  get_value v rest w e =
      let got = stream.on_receive (pack l v) rest w e (length-pack l v) in
      d.recv_takes l.size (at_world s w) (ap is_neg (got.0))
      ∙ rw (got.0, got.1, received_packed l v some_size) refl

  -- The world after a round that gets what it compares with.
  abbrev compared : os.World → os.World
  compared w = h.expect true (i.bump (d.take s l.size w).1)

  not_empty : (v : DataT Int) → (length (pack l v) == 0) ≡ false
  not_empty v = ground (arith, length-pack l v)

  once_compares :
      (v : DataT Int) (rest : List Bytes) (w : os.World)
      → stream.waiting w ≡ pack l v ∷ rest
      → at test_data (i.value w) ≡ returned v
      → once t (subscriber os h i eq l garbage test_data) (at_world s w)
        ≡ (returned tt, at_world s (compared w))
  unfolding once subscriber register_cb new_subscriber call_all callback
  once_compares v rest w e here_is =
      let got = stream.on_receive (pack l v) rest w e (length-pack l v) in
      rw
        (
          get_value v rest w e,
          not_empty v,
          unpack-pack l garbage v full,
          got.4,
          here_is,
          eq_same v.a,
        )
        refl

  -- What waits are the packed values `ds`, and the test data from the counter on are the same.
  abbrev Ready : List (DataT Int) → ℕ → os.World → Type 0
  Ready ds n w =
      (stream.waiting w ≡ map (pack l) ds) × From test_data (i.value w) ds × (stream.failures w ≡ n)

  Ready-compared :
      (v : DataT Int) (ds : List (DataT Int)) (n : ℕ) (w : os.World)
      → Ready (v ∷ ds) n w
      → Ready ds n (compared w)
  Ready-compared v ds n w (waits, (here_is, rest), failed) =
      let (g0, g1, g2, g3, g4) =
        stream.on_receive (pack l v) (map (pack l) ds) w waits (length-pack l v) in
      let w1 = (d.take s l.size w).1 in
      let (b0, b1, b2) = stream.on_bump w1 in
      let (e0, e1, e2) = stream.on_expect (i.bump w1) in
      (
        e0 ∙ (b0 ∙ g2),
        subst (λ k. From test_data k ds) (sym (e2 ∙ (b2 ∙ ap suc g4))) rest,
        e1 ∙ (b1 ∙ (g3 ∙ failed)),
      )

  poll_all-compares :
      (ds : List (DataT Int)) (n : ℕ) (w : os.World)
      → Ready ds n w
      → (v : os.World) × (poll_all os h i eq l garbage test_data t (length ds) (at_world s w)
          ≡ (returned tt, at_world s v))
        × Ready [] n v
  unfolding poll_all
  poll_all-compares [] n w ready = (w, refl, ready)
  poll_all-compares (x ∷ ds) n w ready =
      let (v, ran, done) = poll_all-compares ds n (compared w) (Ready-compared x ds n w ready) in
      (v, rw (once_compares x (map (pack l) ds) w (ready.0) (ready.1.0)) ran, done)

  -- The world after `ds` went out.
  abbrev gone : DataT Int → os.World → os.World
  gone v w = h.nap (pos 1000) (d.send p (pack l v) here w).1

  publish_all-sends :
      (ds : List (DataT Int)) (k : ℕ) (w : os.World)
      → From test_data k ds
      → (v : os.World) × (publish_all os h i eq l garbage test_data t
            (record { clientaddrs = here ∷ [] })
            k
            (length ds)
            (at_world p w)
          ≡ (returned tt, at_world p v))
        × (stream.waiting v ≡ stream.waiting w ++ map (pack l) ds)
        × (stream.failures v ≡ stream.failures w)
        × (i.value v ≡ i.value w)
  unfolding publish_all sends
  publish_all-sends [] k w are = (w, refl, sym (append-nil (stream.waiting w)), refl, refl)
  publish_all-sends (x ∷ ds) k w (here_is, rest) =
      let (s0, s1, s2) = stream.on_send (pack l x) w in
      let (n0, n1, n2) = stream.on_nap (pos 1000) (d.send p (pack l x) here w).1 in
      let (v, ran, all_wait, failed, counted) = publish_all-sends ds (suc k) (gone x w) rest in
      (
        v,
        rw
            (
              here_is,
              publish-sends t d (pack l x) (record { clientaddrs = here ∷ [] }) (at_world p w),
            )
            ran,
        all_wait ∙ rw (n0, s0) (append_assoc (stream.waiting w) (pack l x ∷ []) (map (pack l) ds)),
        failed ∙ (n1 ∙ s1),
        counted ∙ (n2 ∙ s2),
      )

  -- Over any socket of datagrams, on a network without losses, for values of at least a byte, results
  -- with memory of their size and a comparison that holds of equal numbers: where nothing waits, and
  -- the test data hold `ds` both from the `k`-th on, from which the publisher starts, and from the
  -- counter on, which the callback goes on with, the publisher's loop over `ds` ends normally, behind
  -- it so do as many rounds of the subscriber, no test has failed, and nothing waits at the end.
  pub publish_all-poll_all :
      (ds : List (DataT Int)) (k : ℕ) (w : os.World)
      → From test_data k ds
      → From test_data (i.value w) ds
      → stream.waiting w ≡ []
      → (u v : os.World) × (publish_all os h i eq l garbage test_data t
            (record { clientaddrs = here ∷ [] })
            k
            (length ds)
            (at_world p w)
          ≡ (returned tt, at_world p u))
        × (poll_all os h i eq l garbage test_data t (length ds) (at_world s u)
            ≡ (returned tt, at_world s v))
        × (stream.failures v ≡ stream.failures w)
        × (stream.waiting v ≡ [])
  publish_all-poll_all ds k w sent_are counted_are fresh =
      let (u, sent, all_wait, failed, counted) = publish_all-sends ds k w sent_are in
      let (v, ran, (empty, counted_on, kept)) = poll_all-compares ds (stream.failures w) u (
        all_wait ∙ rw fresh refl,
        subst (λ n. From test_data n ds) (sym counted) counted_are,
        failed,
      ) in
      (u, v, sent, ran, kept, empty)
