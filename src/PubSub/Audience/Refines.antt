-- ===== src/PubSub/Audience/Refines.antt =====
-- A Publisher does what an audience without an order says, over any socket of datagrams.
use mathlib.Core.Quot
use mathlib.Core.List.{Perm, perm_append_singleton}
use marko_cpp.Prelude.{
  ℕ, Bool, if◌then◌else◌, Bytes, List, [], ◌∷◌, ◌++◌, append-nil, replicate, ℤ, ◌≡◌, refl, sym, ◌∙◌,
  ap,
}
use marko_cpp.Outcome.{returned}
use marko_cpp.Machine.{M, ◌>>◌, ret}
use marko_cpp.Loop.Queue.{at_world}
use marko_cpp.Transport.{Transport}
use marko_cpp.Transport.Datagrams.{Datagrams}
use marko_cpp.PubSub.{Publisher, register_addr, publish}
use marko_cpp.PubSub.Delivery.{sends, publish-sends}
use marko_cpp.PubSub.Audience.{
  put_behind, copies, View, Command, registers, publishes, join, audience_copies, act, act_all,
}

-- The calls of a program on a publisher, one behind the other.
unfoldable pub run :
    {W : Type 0} (t : Transport W) → List (Command t.Addr) → Publisher t → M W (Publisher t)
run t [] p = ret p
run t (registers a ∷ cs) p = run t cs (register_addr t a p)
run t (publishes msg ∷ cs) p = do let rest = run t cs p; publish t msg p; rest

-- A network without losses from the publisher on descriptor `fd`: a datagram is put behind those
-- that wait at each receiver that the address reaches.
pub record Post {W : Type 0} (t : Transport W) (d : Datagrams t) (fd : ℤ) (gets : t.Addr → ℕ → Bool)
    : Type 0 where
  pub waiting : ℕ → W → List Bytes
  pub on_send :
      (msg : Bytes) (a : t.Addr) (w : W) (r : ℕ)
      → waiting r (d.send fd msg a w).1
        ≡ (if gets a r then waiting r w ++ msg ∷ [] else waiting r w)

module _ {W : Type 0} (t : Transport W) (d : Datagrams t) (fd : ℤ) (gets : t.Addr → ℕ → Bool)
    (post : Post t d fd gets) where
  waiting-sends :
      (msg : Bytes) (addrs : List t.Addr) (w : W) (r : ℕ)
      → post.waiting r (sends t d fd msg addrs w)
        ≡ post.waiting r w ++ replicate (copies gets r addrs) msg
  unfolding sends
  waiting-sends msg [] w r = sym (append-nil (post.waiting r w))
  waiting-sends msg (a ∷ addrs) w r =
      waiting-sends msg addrs (d.send fd msg a w).1 r
      ∙ rw (post.on_send msg a w r)
          (put_behind (gets a r) (post.waiting r w) msg (copies gets r addrs))

  -- The publisher and the world, as the audience and what waits.
  unfoldable pub view : Publisher t → W → View t.Addr
  view p w = record { audience = Quot.mk p.clientaddrs; boxes = λ r. post.waiting r w }

  view-register_addr :
      (a : t.Addr) (p : Publisher t) (w : W)
      → view (register_addr t a p) w ≡ act gets (registers a) (view p w)
  unfolding view act join register_addr
  view-register_addr a p w = λ i. record {
    audience = Quot.sound (perm_append_singleton a p.clientaddrs) i;
    boxes = λ r. post.waiting r w;
  }

  view-publish :
      (msg : Bytes) (p : Publisher t) (w : W)
      → view p (sends t d fd msg p.clientaddrs w) ≡ act gets (publishes msg) (view p w)
  unfolding view act audience_copies
  view-publish msg p w = λ i. record {
    audience = Quot.mk p.clientaddrs;
    boxes = λ r. waiting-sends msg p.clientaddrs w r i;
  }

  -- Over any socket of datagrams, on a network without losses: after any calls of `register_addr` and
  -- `publish`, all of which end normally, the publisher and what waits at each receiver are what the
  -- same calls make of an audience, which keeps the number of registrations and not their order: each
  -- message waits once for each registered address that reaches the receiver, the messages in the
  -- order of the calls.
  pub run-act_all :
      (cs : List (Command t.Addr)) (p : Publisher t) (w : W)
      → (q : Publisher t) × (v : W) × (run t cs p (at_world fd w) ≡ (returned q, at_world fd v))
        × (view q v ≡ act_all gets cs (view p w))
  unfolding run act_all
  run-act_all [] p w = (p, w, refl, refl)
  run-act_all (registers a ∷ cs) p w =
      let (q, v, ran, seen) = run-act_all cs (register_addr t a p) w in
      (q, v, ran, seen ∙ ap (act_all gets cs) (view-register_addr a p w))
  run-act_all (publishes msg ∷ cs) p w =
      let (q, v, ran, seen) = run-act_all cs p (sends t d fd msg p.clientaddrs w) in
      (
        q,
        v,
        rw (publish-sends t d msg p (at_world fd w)) ran,
        seen ∙ ap (act_all gets cs) (view-publish msg p w),
      )

  -- The order of the registrations does not matter to the receivers: two publishers with the same
  -- addresses in different orders leave the same messages at each of them, whatever is done with both.
  pub run-Perm :
      (cs : List (Command t.Addr)) (p q : Publisher t) (w : W) (r : ℕ)
      → Perm p.clientaddrs q.clientaddrs
      → post.waiting r (run t cs p (at_world fd w)).1.world
        ≡ post.waiting r (run t cs q (at_world fd w)).1.world
  unfolding view
  run-Perm cs p q w r same =
      let (p1, v, ran_p, seen_p) = run-act_all cs p w in
      let (q1, u, ran_q, seen_q) = run-act_all cs q w in
      let started : view p w ≡ view q w =
        λ i. record { audience = Quot.sound same i; boxes = λ k. post.waiting k w } in
      rw (ran_p, ran_q) (ap (λ x. x.boxes r) (seen_p ∙ (ap (act_all gets cs) started ∙ sym seen_q)))
