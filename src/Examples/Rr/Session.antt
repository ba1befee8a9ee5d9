-- ===== src/Examples/Rr/Session.antt =====
-- The requester of examples/rr.cpp against its replier, over all rounds.
use marko_cpp.Prelude.{
  ap, sym, ◌∙◌, ℕ, zero, suc, ◌<◌, Bytes, codes, List, [], ◌∷◌, ◌++◌, append-nil, append_assoc,
  length, ℤ, ◌≡◌, refl,
}
use marko_cpp.Outcome.{returned}
use marko_cpp.Sockaddr.{InetAddr}
use marko_cpp.Os.{Os}
use marko_cpp.Loop.Queue.{at_world}
use marko_cpp.Message.{Layout, pack}
use marko_cpp.Message.Received.{length-pack}
use marko_cpp.Message.Memory.{unpack-pack, unpack_whole, value_of-pack}
use marko_cpp.Transport.{udp}
use marko_cpp.Transport.Datagrams.{udp_datagrams}
use marko_cpp.RequestReply.{once, request, new_request, new_reply, register_cb}
use marko_cpp.RequestReply.Remote.{Channel, request-serve}
use marko_cpp.Examples.Rr.{cb, replier, RequestT, ResponseT, ask, ask_all}

-- A network without losses between the requester on descriptor `c` and the replier on `s`, and a
-- screen, which the network leaves alone.
pub record Dialogue (os : Os) (size_q size_r : ℕ) (c s : ℤ) (server client : InetAddr)
    (round : os.World → os.World) : Type 0 where
  pub lines : os.World → List Bytes
  pub channel : Channel (udp os) (udp_datagrams os) size_q size_r c s server client round lines
  pub on_print :
      (line : Bytes) (w : os.World)
      → let v = os.print_line line w in
        (channel.requests v ≡ channel.requests w)
        × (channel.inbox v ≡ channel.inbox w)
        × (lines v ≡ lines w ++ line ∷ [])

module _ (os : Os) {Real Int : Type 0} (shown : RequestT Real Int → Bytes) (digits : Int → Bytes)
    (lq : Layout (RequestT Real Int)) (lr : Layout (ResponseT Int)) (garbage_q garbage_r : Bytes)
    (full_q : length garbage_q ≡ lq.size) (full_r : length garbage_r ≡ lr.size)
    (some_q : 0 < lq.size) (some_r : 0 < lr.size) (server client : InetAddr) (c s : ℤ) where
  -- A round of the replier.
  abbrev pub answers : os.World → os.World
  answers w =
      (once (udp os) (replier os shown digits lq lr garbage_q garbage_r) (at_world s w)).1.world

  abbrev cb_line : RequestT Real Int → Bytes
  cb_line m = codes "cb: " ++ shown m

  -- What the replier does with a request: the lines are the state that it keeps.
  abbrev told : Bytes → List Bytes → Bytes × List Bytes
  told m lines =
      let request = lq.value_of m in
      (pack lr (record { a = request.b }), lines ++ cb_line request ∷ [])

  cb_whole :
      (m : Bytes) (w : os.World)
      → length m ≡ lq.size
      → cb os shown digits lq lr garbage_q garbage_r m (at_world s w) ≡ (
        returned (pack lr (record { a = (lq.value_of m).b })),
        at_world s (os.print_line (cb_line (lq.value_of m)) w),
      )
  unfolding cb
  cb_whole m w whole = rw (unpack_whole lq garbage_q m full_q whole) refl

  ask_lem :
      (m : RequestT Real Int) (w w1 : os.World)
      → request (udp os) (record { msg_size = lr.size }) (pack lq m) server (at_world c w)
        ≡ (returned (pack lr (record { a = m.b })), at_world c w1)
      → ask os shown digits lq lr garbage_q garbage_r m server (at_world c w) ≡ (
        returned (record { a = m.b }),
        at_world c (os.print_line (codes "resp: " ++ digits m.b) w1),
      )
  unfolding ask new_request
  ask_lem m w w1 got = rw (got, unpack-pack lr garbage_r (record { a = m.b }) full_r) refl

  module _ (talk : Dialogue os lq.size lr.size c s server client answers) where
    abbrev Idle : os.World → Type 0
    Idle w = (talk.channel.requests w ≡ []) × (talk.channel.inbox w ≡ [])

    -- The lines of one round.
    abbrev said : RequestT Real Int → List Bytes
    said m = cb_line m ∷ (codes "resp: " ++ digits m.b) ∷ []

    ask_once :
        (m : RequestT Real Int) (w : os.World)
        → Idle w
        → (v : os.World) × (ask os shown digits lq lr garbage_q garbage_r m server (at_world c w)
            ≡ (returned (record { a = m.b }), at_world c v))
          × (talk.lines v ≡ talk.lines w ++ said m)
          × Idle v
    unfolding replier register_cb new_reply
    ask_once m w idle =
        let (v, ran, kept, (a, b)) =
          request-serve (udp os) (udp_datagrams os) lq.size lr.size some_q some_r c s server client
            (cb os shown digits lq lr garbage_q garbage_r)
            (replier os shown digits lq lr garbage_q garbage_r) refl told talk.lines talk.channel
            (λ q u whole.
              let (p1, p2, p3) = talk.on_print (cb_line (lq.value_of q)) u in
              (
                length-pack lr (record { a = (lq.value_of q).b }),
                os.print_line (cb_line (lq.value_of q)) u,
                cb_whole q u whole,
                p3,
                p1,
                p2,
              ))
            (pack lq m) w (length-pack lq m) idle in
        let response_line = codes "resp: " ++ digits m.b in
        let (l1, l2, l3) = talk.on_print response_line v in
        (
          os.print_line response_line v,
          ask_lem m w v (ran ∙ rw (value_of-pack lq m) refl),
          l3
              ∙ (ap (λ ls. ls ++ response_line ∷ []) (kept ∙ rw (value_of-pack lq m) refl)
                  ∙ append_assoc (talk.lines w) (cb_line m ∷ []) (response_line ∷ [])),
          (l1 ∙ a, l2 ∙ b),
        )

    -- The lines of `n` rounds from the `i`-th.
    unfoldable pub conversation : (ℕ → Real × Int) → ℕ → ℕ → List Bytes
    conversation times i zero = []
    conversation times i (suc n) =
        said (record { a = (times i).0; b = (times i).1 }) ++ conversation times (suc i) n

    -- The rounds of the requester, over a network without losses where the replier makes its round while
    -- the requester waits, with messages of at least a byte and results that have memory of their
    -- size, from a world where nothing waits: each round ends with the reply to its own request; the
    -- replier prints the request and then the requester the number of it, round by round; and at the
    -- end nothing waits.
    pub ask_all-conversation :
        (times : ℕ → Real × Int) (i n : ℕ) (w : os.World)
        → talk.channel.requests w ≡ []
        → talk.channel.inbox w ≡ []
        → (v : os.World) × (ask_all os shown digits lq lr garbage_q garbage_r times server i n
              (at_world c w)
            ≡ (returned tt, at_world c v))
          × (talk.lines v ≡ talk.lines w ++ conversation times i n)
          × (talk.channel.requests v ≡ [])
          × (talk.channel.inbox v ≡ [])
    unfolding ask_all conversation
    ask_all-conversation times i zero w none_asked none_told =
        (w, refl, sym (append-nil (talk.lines w)), none_asked, none_told)
    ask_all-conversation times i (suc n) w none_asked none_told =
        let m : RequestT Real Int = record { a = (times i).0; b = (times i).1 } in
        let (v, ran, new_lines, (none_asked1, none_told1)) = ask_once m w (none_asked, none_told) in
        let (t, rest, all_lines, none_asked2, none_told2) =
          ask_all-conversation times (suc i) n v none_asked1 none_told1 in
        (
          t,
          rw ran rest,
          all_lines
              ∙ rw new_lines (append_assoc (talk.lines w) (said m) (conversation times (suc i) n)),
          none_asked2,
          none_told2,
        )
