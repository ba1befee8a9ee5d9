-- ===== src/Gtests/Queries/Passes.antt =====
-- No test of gtests/test_rr.cpp fails, over any socket of datagrams.
use marko_cpp.Prelude.{
  true, false, Bool, if◌then◌else◌, ◌∙◌, ℕ, ◌<◌, Bytes, List, [], ◌∷◌, length, ℤ, ◌≡◌, refl, arith,
}
use marko_cpp.Outcome.{returned}
use marko_cpp.Os.{Os}
use marko_cpp.Loop.Queue.{at_world}
use marko_cpp.Transport.{Transport}
use marko_cpp.Transport.Datagrams.{Datagrams}
use marko_cpp.Message.{Layout, pack}
use marko_cpp.Message.Memory.{unpack-pack, unpack_whole, value_of-pack}
use marko_cpp.Message.Received.{length-pack}
use marko_cpp.RequestReply.{once, request, new_request, new_reply, register_cb}
use marko_cpp.RequestReply.Remote.{Channel, request-serve}
use marko_cpp.Gtests.{Harness}
use marko_cpp.Gtests.Queries.{pos, RequestT, cb, ask_one, ask_data, replier}

-- A network without losses between the requester on descriptor `c` and the replier on `s`, with the
-- count of the tests that failed, which the network and a test that holds leave alone.
pub record Line (os : Os) (h : Harness os) (t : Transport os.World) (d : Datagrams t) (size : ℕ)
    (c s : ℤ) (server client : t.Addr) (round : os.World → os.World) : Type 0 where
  pub failures : os.World → ℕ
  pub channel : Channel t d size size c s server client round failures
  pub on_expect :
      (w : os.World)
      → let v = h.expect true w in
        (channel.requests v ≡ channel.requests w)
        × (channel.inbox v ≡ channel.inbox w)
        × (failures v ≡ failures w)
  pub on_nap :
      (usec : ℤ) (w : os.World)
      → let v = h.nap usec w in
        (channel.requests v ≡ channel.requests w)
        × (channel.inbox v ≡ channel.inbox w)
        × (failures v ≡ failures w)

module _ (os : Os) (h : Harness os) {Int : Type 0} (twice : Int → Int) (eq : Int → Int → Bool)
    (eq_same : (n : Int) → eq n n ≡ true) (l : Layout (RequestT Int)) (garbage : Bytes)
    (full : length garbage ≡ l.size) (some_size : 0 < l.size) (t : Transport os.World)
    (d : Datagrams t) (server client : t.Addr) (c s : ℤ) where
  abbrev pub answers : os.World → os.World
  answers w = (once t (replier os h twice eq l garbage) (at_world s w)).1.world

  abbrev double : RequestT Int → RequestT Int
  double m = record { a = twice m.a }

  -- What the replier computes; the failures are the state that it keeps.
  abbrev doubled : Bytes → ℕ → Bytes × ℕ
  doubled m n = (pack l (double (l.value_of m)), n)

  cb_whole :
      (m : Bytes) (w : os.World)
      → length m ≡ l.size
      → cb os h twice eq l garbage m (at_world s w)
        ≡ (returned (pack l (double (l.value_of m))), at_world s w)
  unfolding cb
  cb_whole m w whole = rw (unpack_whole l garbage m full whole) refl

  -- The world after the tests of a round that hold, and the sleep.
  abbrev tested : Bool → os.World → os.World
  tested sizes w = h.nap (pos 1000) ((if sizes then h.expect true else (λ v. v)) (h.expect true w))

  ask_one_lem :
      (sizes : Bool) (m : RequestT Int) (w w1 : os.World)
      → request t (record { msg_size = l.size }) (pack l m) server (at_world c w)
        ≡ (returned (pack l (double m)), at_world c w1)
      → ask_one os h twice eq l garbage t sizes server m (at_world c w)
        ≡ (returned tt, at_world c (tested sizes w1))
  unfolding ask_one new_request
  ask_one_lem sizes m w w1 got =
      rw (got, unpack-pack l garbage (double m) full, eq_same (twice m.a))
        (ground (arith, length-pack l (double m)))

  module _ (line : Line os h t d l.size c s server client answers) where
    -- Nothing waits, and the failures are those of before.
    abbrev Idle : ℕ → os.World → Type 0
    Idle n w = (line.channel.requests w ≡ []) × (line.channel.inbox w ≡ []) × (line.failures w ≡ n)

    Idle-expect : {n : ℕ} {w : os.World} → Idle n w → Idle n (h.expect true w)
    Idle-expect {n} {w} (a, b, f) = let (a1, b1, f1) = line.on_expect w in (a1 ∙ a, b1 ∙ b, f1 ∙ f)

    Idle-tested : (sizes : Bool) {n : ℕ} {w : os.World} → Idle n w → Idle n (tested sizes w)
    Idle-tested sizes {n} {w} idle =
        let (a, b, f) = sizes_tested sizes (Idle-expect idle) in
        let (a1, b1, f1) =
          line.on_nap (pos 1000) ((if sizes then h.expect true else (λ v. v)) (h.expect true w)) in
        (a1 ∙ a, b1 ∙ b, f1 ∙ f)
      where
        sizes_tested :
            (sizes : Bool) {v : os.World}
            → Idle n v
            → Idle n ((if sizes then h.expect true else (λ v. v)) v)
        sizes_tested true idle = Idle-expect idle
        sizes_tested false idle = idle

    ask_one-Idle :
        (sizes : Bool) (m : RequestT Int) (n : ℕ) (w : os.World)
        → Idle n w
        → (v : os.World) × (ask_one os h twice eq l garbage t sizes server m (at_world c w)
            ≡ (returned tt, at_world c v))
          × Idle n v
    unfolding replier register_cb new_reply
    ask_one-Idle sizes m n w (none_asked, none_told, failed) =
        let (v, ran, kept, (a, b)) =
          request-serve t d l.size l.size some_size some_size c s server client
            (cb os h twice eq l garbage) (replier os h twice eq l garbage) refl doubled
            line.failures line.channel
            (λ q u whole.
              (length-pack l (double (l.value_of q)), u, cb_whole q u whole, refl, refl, refl))
            (pack l m) w (length-pack l m) (none_asked, none_told) in
        (
          tested sizes v,
          ask_one_lem sizes m w v (ran ∙ rw (value_of-pack l m) refl),
          Idle-tested sizes (a, b, kept ∙ failed),
        )

    -- Over any socket of datagrams, on a network without losses where the replier makes its round while
    -- the requester waits, for messages of at least a byte, results with memory of their size and a
    -- comparison that holds of equal numbers, from a world where nothing waits: the requester's loop
    -- over any test data ends normally, with the tests on the sizes or without them, no test has
    -- failed, and nothing waits at the end.
    pub ask_data-passes :
        (sizes : Bool) (test_data : List (RequestT Int)) (w : os.World)
        → line.channel.requests w ≡ []
        → line.channel.inbox w ≡ []
        → (v : os.World) × (ask_data os h twice eq l garbage t sizes server test_data (at_world c w)
            ≡ (returned tt, at_world c v))
          × (line.channel.requests v ≡ [])
          × (line.channel.inbox v ≡ [])
          × (line.failures v ≡ line.failures w)
    unfolding ask_data
    ask_data-passes sizes [] w none_asked none_told = (w, refl, none_asked, none_told, refl)
    ask_data-passes sizes (m ∷ ms) w none_asked none_told =
        let (v, ran, (a, b, f)) =
          ask_one-Idle sizes m (line.failures w) w (none_asked, none_told, refl) in
        let (u, rest, a1, b1, f1) = ask_data-passes sizes ms v a b in
        (u, rw ran rest, a1, b1, f1 ∙ f)
