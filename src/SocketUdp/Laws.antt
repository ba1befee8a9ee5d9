-- ===== src/SocketUdp/Laws.antt =====
-- What SocketUDP (src/include/marko/socket_udp.hpp) hands to its user, and how its sends fail.
use marko_cpp.Prelude.{
  Bool-cases, ℕ, suc, ◌-◌, ◌≤◌, Bytes, ◌++◌, ◌||◌, length, replicate, ℤ, pos, eq_int, ◌≡◌, arith,
  ◌⊎◌, inl, inr, length-overwrite, length-replicate, drop-replicate, ◌∙◌,
}
use marko_cpp.Outcome.{returned}
use marko_cpp.Sockaddr.{InetAddr}
use marko_cpp.Os.{Os, inet_at}
use marko_cpp.Machine.{Sock}
use marko_cpp.Socket.{guard, socket_timeout}
use marko_cpp.SocketUdp.{received, sendto}

-- The size test passes a boolean to `guard`, which looks for a negative number: no send throws or
-- closes the socket, also one that failed or was cut short; the number of the call is returned.
pub sendto_lem :
    (os : Os) (msg : Bytes) (addr : InetAddr) (flags : ℕ) (s : Sock os.World)
    → let r = os.send_to s.fd msg flags (inet_at addr) s.world in
      sendto os msg addr flags s ≡ (returned r.0, record s { world = r.1 })
unfolding sendto guard
sendto_lem os msg addr flags s = ground arith

-- A datagram of `k + 1` bytes is handed on at the size that was asked for: its bytes, and zeros
-- behind them.
pub received_padded :
    (msg_size k : ℕ) (written : Bytes)
    → length written ≡ suc k
    → received msg_size (pos (suc k)) written ≡ written ++ replicate (msg_size - suc k) 0
unfolding received
received_padded msg_size k written len =
    rw len (rw (drop-replicate {A = ℕ} (suc k) msg_size 0) (ground arith))

-- Where the call wrote at most the size that was asked for, the message is empty or has exactly
-- that size, whatever the datagram's own length is.
pub length-received :
    (msg_size : ℕ) (num : ℤ) (written : Bytes)
    → length written ≤ msg_size
    → (length (received msg_size num written) ≡ 0)
      ⊎ (length (received msg_size num written) ≡ msg_size)
unfolding received
length-received msg_size num written fits =
    elim (Bool-cases (eq_int num socket_timeout || eq_int num (pos 0))) [
      | inl nothing ↦ inl (rw nothing)
      | inr some_bytes ↦ inr (
          rw some_bytes (
            length-overwrite written (replicate msg_size 0)
              (rw (length-replicate {A = ℕ} msg_size 0) fits)
            ∙ length-replicate {A = ℕ} msg_size 0))
    ]
