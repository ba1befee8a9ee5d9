-- ===== src/PubSub/Polling.antt =====
-- The subscriber's `loop(Event &event)` (src/include/marko/pub_sub.hpp) on the network of
-- PubSub/Network.
use marko_cpp.Prelude.{
  map_id, ap, ◌∙◌, sym, ℕ, ◌<◌, ◌+◌, Bytes, List, [], ◌∷◌, ◌++◌, All, length, ltb, map, Bool, true,
  ℤ, ◌≡◌,
}
use marko_cpp.Outcome.{returned}
use marko_cpp.Os.{Os}
use marko_cpp.Sockaddr.{InetAddr}
use marko_cpp.Transport.{udp}
use marko_cpp.Loop.Queue.{at_world, Takes, loop-queue}
use marko_cpp.PubSub.{Subscriber, once, subscriber_loop}
use marko_cpp.PubSub.Delivery.{acts, once-acts}
use marko_cpp.PubSub.Network.{Network, polled, polled_message}

module _ (os : Os) (rd : ℤ) (here : InetAddr) (size : ℕ) (note : Bytes → os.World → os.World) where
  abbrev pub noting : Subscriber os.World
  noting = record { callbacks = map acts (note ∷ []); data_size = size }

  once-polled :
      (w : os.World)
      → once (udp os) noting (at_world rd w)
        ≡ (returned tt, at_world rd (polled os rd here size note w))
  once-polled w =
      let e = once-acts os (note ∷ []) size (at_world rd w) in
      e ∙ ap (λ v. (returned tt, at_world rd v)) (sym (ap (λ r. r.1.world) e))

  module _ (net : Network os rd here size note) (nonempty : 0 < size) where
    polled_takes :
        (msg : Bytes) (rest : List Bytes) (w : os.World)
        → net.waiting w ≡ msg ∷ rest
        → length msg ≡ size
        → (net.waiting (polled os rd here size note w) ≡ rest)
          × (net.seen (polled os rd here size note w) ≡ net.seen w ++ msg ∷ [])
    polled_takes msg rest w e full =
        let got = net.on_receive msg rest w e full in
        let noted = net.on_note msg (os.recvfrom_in rd size 0 w).1 in
        rw (polled_message os rd here size note net nonempty msg rest w e full)
          (noted.0 ∙ got.2, rw (noted.1, got.3))

    once_takes :
        Takes rd (once (udp os) noting) net.waiting net.seen (λ m. length m ≡ size) (λ m. m)
    once_takes msg rest w e full =
        let (left, saw) = polled_takes msg rest w e full in
        (polled os rd here size note w, once-polled w, left, saw)

    -- The loop of a SubscriberUdp with one callback, registered for messages of a size that is not
    -- 0, over a network of datagrams: where the event is set as long as the callback saw fewer
    -- messages than `limit`, and enough messages of the subscriber's size wait to reach it, it ends after that number of rounds
    -- in a world where the callback has seen exactly these messages, in their order, and the others
    -- still wait. Fuel of one more than their number is enough.
    pub subscriber_loop-takes :
        (is_set : os.World → Bool) (limit : ℕ)
        → ((w : os.World) → is_set w ≡ ltb (length (net.seen w)) limit)
        → (ms rest : List Bytes) (w : os.World) → net.waiting w ≡ ms ++ rest
        → All (λ m. length m ≡ size) ms
        → length (net.seen w) + length ms ≡ limit
        → (fuel : ℕ) → length ms < fuel
        → (t : os.World) × (subscriber_loop (udp os) is_set noting fuel (at_world rd w)
            ≡ (returned true, at_world rd t))
          × (net.seen t ≡ net.seen w ++ ms)
          × (net.waiting t ≡ rest)
    unfolding subscriber_loop
    subscriber_loop-takes is_set limit event ms rest w e sized l fuel enough =
        let (t, ran, seen_all, left) =
          loop-queue rd (once (udp os) noting) net.waiting net.seen (λ m. length m ≡ size) (λ m. m)
            once_takes is_set limit event ms rest w e sized l fuel enough in
        (t, ran, seen_all ∙ rw (map_id ms), left)
