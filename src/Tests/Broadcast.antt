-- ===== src/Tests/Broadcast.antt =====
-- The clients of gtests/test_bc.cpp on a network that computes.
use marko_cpp.Prelude.{
  arith, true, false, ℕ, Bool, ◌==◌, if◌then◌else◌, Bytes, List, [], ◌∷◌, ◌++◌, length, ℤ, pos,
  negsuc, ◌≡◌, ◌≢◌, refl, suc,
}
use marko_cpp.Outcome.{returned}
use marko_cpp.Os.{Os, Received}
use marko_cpp.Sockaddr.{InetAddr}
use marko_cpp.SocketUdp.{sendto}
use marko_cpp.Socket.{guard}
use marko_cpp.Gtests.Broadcast.{cast_one}
use marko_cpp.SocketBc.{cast, broadcast_addr}
use marko_cpp.Loop.Queue.{at_world}
use marko_cpp.Message.{pack, Subscription}
use marko_cpp.Gtests.{Harness}
use marko_cpp.Gtests.Broadcast.{port, bc_test_data, cast_data, check_data}
use marko_cpp.Gtests.Broadcast.Air.{Air, start, casts, checks, server_round, client_round}
use marko_cpp.Gtests.Broadcast.Clients.{Reach-completes}
use marko_cpp.Tests.Samples.{os_of, server_fd, client_addr}

-- What waits at each client, and how many tests failed.
record Sky : Type 0 where
  boxes : ℕ → List Bytes
  failed : ℕ

abbrev first_box : List Bytes → Received InetAddr × List Bytes
first_box [] = (record { num = negsuc 0; written = []; from = client_addr }, [])
first_box (m ∷ rest) = (record { num = pos (length m); written = m; from = client_addr }, rest)

abbrev take : ℤ → Sky → Received InetAddr × Sky
take (negsuc n) w = ((first_box []).0, w)
take (pos c) w =
    let r = first_box (w.boxes c) in
    (r.0, record w { boxes = λ b. if b == c then r.1 else w.boxes b })

abbrev sky_os : Os
sky_os =
    os_of {W = Sky} take (λ fd msg to w. record w { boxes = λ c. w.boxes c ++ msg ∷ [] })
      (λ line w. w)

abbrev counted : Bool → Sky → Sky
counted true w = w
counted false w = record w { failed = suc w.failed }

abbrev harness : Harness sky_os
harness = record { expect = counted; nap = λ usec w. w }

sky_air : Air sky_os harness server_fd (broadcast_addr port) pos
sky_air = record {
  waiting = λ c w. w.boxes c;
  failures = λ w. w.failed;
  on_send = λ msg w. (λ c. refl, refl);
  on_nap = λ usec w. (λ c. refl, refl);
  on_receive = λ c msg rest w e full.
      (rw e refl, rw e refl, rw e (ground arith), λ b ne. ground arith, refl);
  on_expect = λ w. (λ c. refl, refl);
}

abbrev clear_sky : Sky
clear_sky = record { boxes = λ c. []; failed = 0 }

abbrev first_data : Subscription
first_data = record { topic = 19; status = 170 }

abbrev four_data : List Subscription
four_data =
    record { topic = 72; status = 85 }
    ∷ record { topic = 103; status = 170 }
    ∷ record { topic = 144; status = 85 }
    ∷ record { topic = 250; status = 170 }
    ∷ []

abbrev after_cast : Sky
after_cast =
    (server_round sky_os harness (0 ∷ 0 ∷ []) server_fd (broadcast_addr port) pos first_data
      clear_sky).1.world

abbrev after_check : Sky
after_check =
    (client_round sky_os harness (0 ∷ 0 ∷ []) server_fd (broadcast_addr port) pos 0 first_data
      after_cast).1.world

cast_waits : after_cast.boxes 0 ≡ (19 ∷ 170 ∷ []) ∷ []
unfolding cast_one cast sendto guard pack
cast_waits = refl

not_empty : {m : Bytes} {ms xs : List Bytes} → xs ≡ m ∷ ms → xs ≢ []
not_empty e none = cc (e, none)

-- The server has sent once, and the first of the clients has had its round.
Reach-completes_example :
    (u t : Sky) × (cast_data sky_os harness
        (broadcast_addr port)
        four_data
        (at_world server_fd after_check)
      ≡ (returned tt, at_world server_fd u))
    × (check_data sky_os harness (0 ∷ 0 ∷ []) four_data (at_world (pos 0) u)
        ≡ (returned tt, at_world (pos 0) t))
    × (t.failed ≡ 0)
    × (t.boxes 0 ≡ [])
unfolding sky_air
Reach-completes_example =
    Reach-completes sky_os harness (0 ∷ 0 ∷ []) server_fd (broadcast_addr port) pos refl sky_air
      bc_test_data clear_sky (λ c. refl)
      (checks 0 first_data four_data refl (not_empty cast_waits) (casts start)) 0
