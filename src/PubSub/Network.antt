-- ===== src/PubSub/Network.antt =====
-- Publishers and a subscriber over UDP (src/include/marko/pub_sub.hpp) at the same time: every
-- interleaving of whole `publish` calls and whole rounds of the subscriber, over a network that may
-- lose datagrams.
use marko_cpp.Prelude.{
  Thinned, done, Thinned-lost_last, Thinned-kept_last, done, All, All-append, if◌then◌else◌, ◌==◌,
  ℕ, ◌<◌, Bytes, List, [], ◌∷◌, ◌++◌, append_assoc, map, length, ℤ, pos, negsuc, ◌≡◌, refl, sym,
  subst, ap, ◌∙◌, ◌⊎◌, inl, inr, arith,
}
use marko_cpp.Os.{Os, inet_at}
use marko_cpp.Sockaddr.{InetAddr}
use marko_cpp.Transport.Datagrams.{udp_datagrams}
use marko_cpp.Transport.{udp}
use marko_cpp.SocketUdp.{received}
use marko_cpp.PubSub.{once, publish}
use marko_cpp.PubSub.Delivery.{acts, act_all, sends, publish-sends, once-acts}
use marko_cpp.RequestReply.Exchange.{received_whole}

-- What is asked of the network between the publishers and the subscriber on descriptor `rd`, which
-- is bound to `here` and asks for `size` bytes: a datagram for `here` is put behind those that wait
-- there, or is lost; a receive call takes the first one, whole, and times out where none waits. The
-- subscriber's callback `note` writes down what it gets.
pub record Network (os : Os) (rd : ℤ) (here : InetAddr) (size : ℕ)
    (note : Bytes → os.World → os.World) : Type 0 where
  pub waiting : os.World → List Bytes
  pub seen : os.World → List Bytes
  pub on_send :
      (fd : ℤ) (msg : Bytes) (w : os.World)
      → let w' = (os.send_to fd msg 0 (inet_at here) w).1 in
        (seen w' ≡ seen w) × ((waiting w' ≡ waiting w ++ msg ∷ []) ⊎ (waiting w' ≡ waiting w))
  pub on_receive :
      (msg : Bytes) (rest : List Bytes) (w : os.World)
      → waiting w ≡ msg ∷ rest
      → length msg ≡ size
      → let r = os.recvfrom_in rd size 0 w in
        (r.0.num ≡ pos size) × (r.0.written ≡ msg) × (waiting r.1 ≡ rest) × (seen r.1 ≡ seen w)
  pub on_timeout :
      (w : os.World)
      → waiting w ≡ []
      → let r = os.recvfrom_in rd size 0 w in
        (r.0.num ≡ negsuc 0) × (waiting r.1 ≡ []) × (seen r.1 ≡ seen w)
  pub on_note :
      (msg : Bytes) (w : os.World)
      → (waiting (note msg w) ≡ waiting w) × (seen (note msg w) ≡ seen w ++ msg ∷ [])

module _ (os : Os) (rd : ℤ) (here : InetAddr) (size : ℕ) (note : Bytes → os.World → os.World) where
  -- One `publish` of a message by a publisher on any descriptor to the one registered address.
  abbrev pub published : ℤ → Bytes → os.World → os.World
  published fd msg w =
      (publish (udp os) msg (record { clientaddrs = here ∷ [] })
        (record { fd = fd; world = w })).1.world

  -- One round of the subscriber.
  abbrev pub polled : os.World → os.World
  polled w =
      (once (udp os) (record { callbacks = map acts (note ∷ []); data_size = size })
        (record { fd = rd; world = w })).1.world

  -- The worlds that an interleaving leads to, with the messages that were published, in order.
  pub data Reach (w0 : os.World) : os.World → List Bytes → Type 0 where
    start : Reach w0 w0 []
    publishes :
        {w : os.World} {sent : List Bytes} (fd : ℤ) (msg : Bytes)
        → length msg ≡ size
        → Reach w0 w sent
        → Reach w0 (published fd msg w) (sent ++ msg ∷ [])
    polls : {w : os.World} {sent : List Bytes} → Reach w0 w sent → Reach w0 (polled w) sent

  module _ (net : Network os rd here size note) (nonempty : 0 < size) where
    -- What the callback saw, and behind it what still waits, is what was published in this order,
    -- less what was lost; and what waits has the size that the subscriber asks for.
    pub record Delivered (w : os.World) (sent : List Bytes) : Type 0 where
      pub thinned : Thinned (net.seen w ++ net.waiting w) sent
      pub sized : All (λ m. length m ≡ size) (net.waiting w)

    published_lem :
        (fd : ℤ) (msg : Bytes) (w : os.World)
        → published fd msg w ≡ (os.send_to fd msg 0 (inet_at here) w).1
    unfolding sends
    published_lem fd msg w =
        ap (λ r. r.1.world)
          (publish-sends (udp os) (udp_datagrams os) msg (record { clientaddrs = here ∷ [] })
            (record { fd = fd; world = w }))

    polled_lem :
        (w : os.World)
        → let r = os.recvfrom_in rd size 0 w in
          polled w ≡ (
            if length (received size r.0.num r.0.written) == 0
            then r.1
            else note (received size r.0.num r.0.written) r.1)
    unfolding act_all
    polled_lem w =
        ap (λ r. r.1.world) (once-acts os (note ∷ []) size (record { fd = rd; world = w }))

    Delivered-same :
        {w w' : os.World} {sent : List Bytes}
        → net.seen w' ++ net.waiting w' ≡ net.seen w ++ net.waiting w
        → All (λ m. length m ≡ size) (net.waiting w')
        → Delivered w sent
        → Delivered w' sent
    Delivered-same {sent} e sized d = record {
      thinned = subst (λ xs. Thinned xs sent) (sym e) d.thinned;
      sized = sized;
    }

    Delivered-published :
        (fd : ℤ) (msg : Bytes) {w : os.World} {sent : List Bytes}
        → length msg ≡ size
        → Delivered w sent
        → Delivered (published fd msg w) (sent ++ msg ∷ [])
    Delivered-published fd msg {w} {sent} full d =
        let (saw, arrived) = net.on_send fd msg w in rw (published_lem fd msg w) (go saw arrived)
      where
        w' : os.World
        w' = (os.send_to fd msg 0 (inet_at here) w).1

        go :
            net.seen w' ≡ net.seen w
            → ((net.waiting w' ≡ net.waiting w ++ msg ∷ []) ⊎ (net.waiting w' ≡ net.waiting w))
            → Delivered w' (sent ++ msg ∷ [])
        go saw (inl behind) = record {
          thinned =
              subst (λ xs. Thinned xs (sent ++ msg ∷ []))
                (append_assoc (net.seen w) (net.waiting w) (msg ∷ []) ∙ cc (saw, behind))
                (Thinned-kept_last msg d.thinned);
          sized = rw behind (All-append _ (net.waiting w) (msg ∷ []) d.sized (full, tt));
        }
        go saw (inr gone) = record {
          thinned =
              subst (λ xs. Thinned xs (sent ++ msg ∷ [])) (cc (saw, gone))
                (Thinned-lost_last msg d.thinned);
          sized = rw gone d.sized;
        }

    polled_timeout : (w : os.World) → net.waiting w ≡ [] → polled w ≡ (os.recvfrom_in rd size 0 w).1
    unfolding received
    polled_timeout w e = polled_lem w ∙ rw (net.on_timeout w e).0

    received_full : (msg : Bytes) → length msg ≡ size → received size (pos size) msg ≡ msg
    received_full msg full =
        subst (λ n. received n (pos n) msg ≡ msg) full (received_whole msg (omega (arith, full)))

    pub polled_message :
        (msg : Bytes) (rest : List Bytes) (w : os.World)
        → net.waiting w ≡ msg ∷ rest
        → length msg ≡ size
        → polled w ≡ note msg (os.recvfrom_in rd size 0 w).1
    polled_message msg rest w e full =
        let got = net.on_receive msg rest w e full in
        polled_lem w ∙ rw (got.0, got.1, received_full msg full) (ground arith)

    Delivered-polled :
        (q : List Bytes) {w : os.World} {sent : List Bytes}
        → net.waiting w ≡ q
        → Delivered w sent
        → Delivered (polled w) sent
    Delivered-polled [] {w} {sent} e d =
        let got = net.on_timeout w e in
        rw (polled_timeout w e) (Delivered-same (cc (got.1, got.2, e)) (rw got.1 tt) d)
    Delivered-polled (msg ∷ rest) {w} {sent} e d =
        let sized = rw e at d.sized in
        let got = net.on_receive msg rest w e sized.0 in
        let noted = net.on_note msg (os.recvfrom_in rd size 0 w).1 in
        rw (polled_message msg rest w e sized.0) (
          Delivered-same
            (rw (noted.0, noted.1, got.2, got.3, e) (append_assoc (net.seen w) (msg ∷ []) rest))
            (rw (noted.0, got.2) sized.1) d)

    -- In every interleaving of `publish` calls of messages of the subscriber's size, which is not 0,
    -- and rounds of the subscriber, over a network that may lose datagrams but does not otherwise
    -- change their sequence: what the callback saw, and behind it what still waits, is the sequence
    -- of the published messages less the lost ones, and all that waits has the subscriber's size.
    pub Reach-Delivered :
        {w0 w : os.World} {sent : List Bytes}
        → net.seen w0 ≡ []
        → net.waiting w0 ≡ []
        → Reach w0 w sent
        → Delivered w sent
    Reach-Delivered fresh empty start = record {
      thinned = rw (fresh, empty) done;
      sized = rw empty tt;
    }
    Reach-Delivered fresh empty (publishes fd msg full r) =
        Delivered-published fd msg full (Reach-Delivered fresh empty r)
    Reach-Delivered fresh empty (polls r) = Delivered-polled _ refl (Reach-Delivered fresh empty r)
