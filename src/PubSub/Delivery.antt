-- ===== src/PubSub/Delivery.antt =====
-- What Subscriber and Publisher (src/include/marko/pub_sub.hpp) do with a message, and in which
-- order.
use marko_cpp.Prelude.{
  fun_ext, ap, ℕ, Bytes, List, [], ◌∷◌, ◌++◌, map, ◌==◌, if◌then◌else◌, length, ℤ, ◌≡◌, refl, sym,
  ◌∙◌, arith,
}
use marko_cpp.Outcome.{returned}
use marko_cpp.Os.{Os}
use marko_cpp.Machine.{continue-ret, Sock, continue, continue-continue, ◌>>◌, ret}
use marko_cpp.Transport.Datagrams.{Datagrams}
use marko_cpp.Transport.{Transport, udp}
use marko_cpp.SocketUdp.{received}
use marko_cpp.SocketUdp
use marko_cpp.PubSub.{
  SubCallback, Subscriber, register_cb, call_all, once, Publisher, send_all, publish,
}

call_all-append :
    {W : Type 0} (xs ys : List (SubCallback W)) (msg : Bytes)
    → call_all (xs ++ ys) msg ≡ (call_all xs msg >> call_all ys msg)
unfolding call_all
call_all-append [] ys msg = refl
call_all-append (x ∷ xs) ys msg =
    rw (call_all-append xs ys msg)
      (fun_ext λ s. sym (continue-continue (x msg s) (λ _. call_all xs msg) (λ _. call_all ys msg)))

call_all-concat :
    {W : Type 0} (xs : List (SubCallback W)) (func : SubCallback W)
    → call_all (xs ++ func ∷ []) ≡ λ msg. (call_all xs msg >> func msg)
unfolding call_all
call_all-concat xs func = fun_ext λ msg.
    call_all-append xs (func ∷ []) msg
    ∙ ap (λ k. call_all xs msg >> k) (fun_ext λ s. continue-ret (func msg s))

-- A callback that is registered runs after all that were registered before it, on the same message,
-- and only on a message that is not empty.
pub once-register_cb :
    {W : Type 0} (socket : Transport W) (func : SubCallback W) (sub : Subscriber W) (s : Sock W)
    → once socket (register_cb func sub) s
      ≡ continue
          (socket.recv sub.data_size s)
          (λ msg. if length msg == 0 then ret tt else (call_all sub.callbacks msg >> func msg))
unfolding once register_cb
once-register_cb socket func sub s = rw (call_all-concat sub.callbacks func)

module _ {W : Type 0} (t : Transport W) (d : Datagrams t) where
  -- The world after a datagram went to each address, in this order.
  unfoldable pub sends : ℤ → Bytes → List t.Addr → W → W
  sends fd msg [] w = w
  sends fd msg (a ∷ addrs) w = sends fd msg addrs (d.send fd msg a w).1

  send_all-sends :
      (msg : Bytes) (addrs : List t.Addr) (s : Sock W)
      → send_all t msg addrs s ≡ (returned tt, record s { world = sends s.fd msg addrs s.world })
  unfolding sends send_all
  send_all-sends msg [] s = refl
  send_all-sends msg (a ∷ addrs) s =
      rw (d.sendto_sends msg a s) (send_all-sends msg addrs (record s { world = _ }))

  -- A publisher over any socket of datagrams sends the message to each registered address once, in
  -- the order of registration, whatever becomes of the sends: it does not throw, and stays open.
  pub publish-sends :
      (msg : Bytes) (p : Publisher t) (s : Sock W)
      → publish t msg p s ≡ (returned tt, record s { world = sends s.fd msg p.clientaddrs s.world })
  unfolding publish
  publish-sends msg p s = send_all-sends msg p.clientaddrs s

-- A callback that only acts on the world and returns.
abbrev pub acts : {W : Type 0} → (Bytes → W → W) → SubCallback W
acts g msg s = (returned tt, record s { world = g msg s.world })

-- The world after the callbacks acted in turn on the same message.
unfoldable pub act_all : {W : Type 0} → List (Bytes → W → W) → Bytes → W → W
act_all [] msg w = w
act_all (g ∷ gs) msg w = act_all gs msg (g msg w)

call_all-acts :
    {W : Type 0} (gs : List (Bytes → W → W)) (msg : Bytes) (s : Sock W)
    → call_all (map acts gs) msg s ≡ (returned tt, record s { world = act_all gs msg s.world })
unfolding call_all act_all
call_all-acts [] msg s = refl
call_all-acts (g ∷ gs) msg s = call_all-acts gs msg (record s { world = g msg s.world })

-- One round of a UDP subscriber whose callbacks act on the world and return: where the receive
-- call timed out or gave an empty datagram no callback runs; otherwise each callback acts once,
-- in the order of registration, on the message.
pub once-acts :
    (os : Os) (gs : List (Bytes → os.World → os.World)) (size : ℕ) (s : Sock os.World)
    → let r = os.recvfrom_in s.fd size 0 s.world in
      let msg : Bytes = received size r.0.num r.0.written in
      once (udp os) (record { callbacks = map acts gs; data_size = size }) s
      ≡ (returned tt, record s { world = if length msg == 0 then r.1 else act_all gs msg r.1 })
unfolding once SocketUdp.recv
once-acts os gs size s =
    let r = os.recvfrom_in s.fd size 0 s.world in
    ground (arith, call_all-acts gs (received size r.0.num r.0.written) (record s { world = r.1 }))
