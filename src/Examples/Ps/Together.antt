-- ===== src/Examples/Ps/Together.antt =====
-- The publisher and the subscriber of examples/ps.cpp, one behind the other on the same network.
use marko_cpp.Prelude.{
  sym, ap, ◌∙◌, subst, ℕ, zero, suc, ◌<◌, Bytes, List, [], ◌∷◌, ◌++◌, map, append-nil, append_assoc,
  length, ℤ, pos, ◌≡◌, ◌≢◌, refl,
}
use marko_cpp.Outcome.{returned}
use marko_cpp.Regex.{host_class}
use marko_cpp.Regex.Runs.{InClass}
use marko_cpp.Sockaddr.{InetAddr, af_inet, htons, ip_of}
use marko_cpp.Os.{Os, inet_at, sock_dgram}
use marko_cpp.Loop.Queue.{at_world}
use marko_cpp.Message.{Layout, pack}
use marko_cpp.Examples.Ps.{DataT, port, max_loop, publisher, poll_all}
use marko_cpp.Examples.Inbox.{Wire}
use marko_cpp.Examples.Ps.Lines.{poll_all-prints}
use marko_cpp.Examples.Ps.Programs.{sent_values, publisher_sends}

-- `n` values from the `i`-th.
unfoldable pub values {ℓ} : {A : Type ℓ} → (ℕ → A) → ℕ → ℕ → List A
values value i zero = []
values value i (suc n) = value i ∷ values value (suc i) n

length-values {ℓ} : {A : Type ℓ} (value : ℕ → A) (i n : ℕ) → length (values value i n) ≡ n
unfolding values
length-values value i zero = refl
length-values value i (suc n) = ap suc (length-values value (suc i) n)

module _ (os : Os) {Real Int : Type 0} (printed : DataT Real Int → Bytes)
    (l : Layout (DataT Real Int)) (garbage : Bytes) (value : ℕ → DataT Real Int) (fd from : ℤ)
    (to : InetAddr) (wire : Wire os fd l.size from to) where
  sent_values-waits :
      (i n : ℕ) (w : os.World)
      → let v = sent_values os printed l garbage value from to i n w in
        (wire.inbox.waiting v ≡ wire.inbox.waiting w ++ map (pack l) (values value i n))
        × (wire.inbox.lines v ≡ wire.inbox.lines w)
  unfolding sent_values values
  sent_values-waits i zero w = (sym (append-nil (wire.inbox.waiting w)), refl)
  sent_values-waits i (suc n) w =
      let sent = wire.on_send (pack l (value i)) w in
      let rest =
        sent_values-waits (suc i) n (os.send_to from (pack l (value i)) 0 (inet_at to) w).1 in
      (
        rest.0 ∙ rw (sent.0) (append_assoc (wire.inbox.waiting w) (pack l (value i) ∷ []) _),
        rest.1 ∙ sent.1,
      )

module _ (os : Os) {Real Int : Type 0} (printed : DataT Real Int → Bytes)
    (l : Layout (DataT Real Int)) (garbage : Bytes) (full : length garbage ≡ l.size)
    (some_size : 0 < l.size) (value : ℕ → DataT Real Int) (host : Bytes) (fd : ℤ) (from : ℕ)
    (wire : Wire os fd l.size
      (pos from)
      (record { sin_family = af_inet; sin_port = htons port; sin_addr = ip_of os.net host })) where
  -- The publisher runs to its end, for a host that is not empty, in the characters that the
  -- expression knows and with an ip of four bytes, on a system that gives it a socket and where
  -- nothing waits at the subscriber, which is bound to the publisher's address; the network loses
  -- nothing. Then the subscriber's ten rounds, with memory of the size of its values, which is not 0,
  -- print the ten values that the publisher made, in their order, and nothing is left.
  pub publisher-poll_all :
      (w w1 : os.World)
      → host ≢ []
      → InClass host_class host
      → length (ip_of os.net host) ≡ 4
      → os.socket af_inet sock_dgram 0 w ≡ (pos from, w1)
      → wire.inbox.waiting w1 ≡ []
      → (t : os.World) × (poll_all os printed l garbage max_loop
            (at_world fd (publisher os printed l garbage host value w).1.world)
          ≡ (returned tt, at_world fd t))
        × (wire.inbox.lines t ≡ wire.inbox.lines w1 ++ map printed (values value 0 max_loop))
        × (wire.inbox.waiting t ≡ [])
  publisher-poll_all w w1 hne hal four opened fresh =
      let to : InetAddr = record {
        sin_family = af_inet;
        sin_port = htons port;
        sin_addr = ip_of os.net host;
      } in
      let v = sent_values os printed l garbage value (pos from) to 0 max_loop w1 in
      let ended = os.close_fd (pos from) v in
      let sent = sent_values-waits os printed l garbage value fd (pos from) to wire 0 max_loop w1 in
      let closed = wire.on_close v in
      let vs = values value 0 max_loop in
      let (t, ran, all_lines, left) =
        poll_all-prints os printed l garbage full some_size fd wire.inbox vs [] ended
          (closed.0 ∙ (sent.0 ∙ rw fresh (sym (append-nil (map (pack l) vs))))) in
      (
        t,
        rw
            (ap (λ r. r.1.world)
              (publisher_sends os printed l garbage value host from w w1 hne hal four opened))
            (subst
              (λ k.
                poll_all os printed l garbage k (at_world fd ended) ≡ (returned tt, at_world fd t))
              (length-values value 0 max_loop) ran),
        all_lines ∙ rw (closed.1, sent.1),
        left,
      )
