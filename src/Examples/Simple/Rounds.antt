-- ===== src/Examples/Simple/Rounds.antt =====
-- The rounds of examples/simple.cpp.
use marko_cpp.Prelude.{
  ℕ, zero, suc, ◌-◌, ◌≤◌, Bytes, codes, ◌++◌, append-nil, replicate, overwrite, drop-replicate,
  length, ltb, if◌then◌else◌, ℤ, pos, is_neg, false, ◌≡◌, refl, arith, inl, inr, Bool-cases,
}
use marko_cpp.Outcome.{returned, undefined}
use marko_cpp.Regex.{path_class}
use marko_cpp.Regex.Runs.{InClass}
use marko_cpp.Sockaddr.{c_string}
use marko_cpp.Sockaddr.Paths.{c_string_terminated, c_string_unterminated}
use marko_cpp.Os.{Os, inet_at}
use marko_cpp.Machine.{Sock}
use marko_cpp.Examples.Simple.{
  finished, max_buffer_size, get_ip_port, get_udp_addr, host, port, receive_loop, send_loop,
}

c_string_buffer :
    (text : Bytes)
    → InClass path_class text
    → length text ≤ max_buffer_size
    → c_string (overwrite text (replicate max_buffer_size 0))
      ≡ (if ltb (length text) max_buffer_size then returned text else undefined)
c_string_buffer text al fits = elim (Bool-cases (ltb (length text) max_buffer_size)) [
  | inl short ↦
      let e : max_buffer_size - length text ≡ suc (31 - length text) = ground arith in
      rw (short, drop-replicate {A = ℕ} (length text) max_buffer_size 0, e)
        (c_string_terminated text (31 - length text) al)
  | inr full ↦
      let e : max_buffer_size - length text ≡ 0 = ground arith in
      rw (full, drop-replicate {A = ℕ} (length text) max_buffer_size 0, e, append-nil)
        (c_string_unterminated text al)
]

-- A round of the subscriber that gets a text of at most 32 path characters prints it with its
-- sender and goes on, if the text is shorter than the buffer of 32; a text of the buffer's size
-- leaves no NUL behind it, and printing it has no defined result.
pub receive_loop_text :
    (os : Os) (perror : Bytes → os.World → os.World) (n : ℕ) (text : Bytes) (s : Sock os.World)
    → let r = os.recvfrom_in s.fd max_buffer_size 0 s.world in
      InClass path_class text
      → length text ≤ max_buffer_size
      → r.0.num ≡ pos (length text)
      → r.0.written ≡ text
      → receive_loop os perror (suc n) s ≡ (
          if ltb (length text) max_buffer_size
          then receive_loop os perror n (record s {
            world =
                os.print_line
                  (codes "Received "
                    ++ (text ++ (codes " from " ++ get_ip_port os perror r.0.from)))
                  r.1;
          })
          else (undefined, record s { world = r.1 }))
unfolding receive_loop
receive_loop_text os perror n text s al fits num written =
    rw (num, written, c_string_buffer text al fits) (ground arith)

-- The world after `n` rounds of the publisher, each a send of "hello" and a line of print.
unfoldable pub said : (os : Os) → (Bytes → os.World → os.World) → ℤ → ℕ → os.World → os.World
said os perror fd zero w = w
said os perror fd (suc n) w = said os perror fd n (
    os.print_line (codes "Reply sent to client ")
      (os.send_to fd (codes "hello") 0 (inet_at (get_udp_addr os perror host port)) w).1)

-- Where no send fails, the publisher sends "hello" to port 6666 of its host once a round, and closes
-- its descriptor behind the last one.
pub send_loop_lem :
    (os : Os) (perror : Bytes → os.World → os.World) (n : ℕ) (s : Sock os.World)
    → ((w : os.World)
        → is_neg
            (os.send_to s.fd (codes "hello") 0 (inet_at (get_udp_addr os perror host port)) w).0
          ≡ false)
    → send_loop os perror n s
      ≡ (returned finished, record s { world = os.close_fd s.fd (said os perror s.fd n s.world) })
unfolding send_loop said
send_loop_lem os perror zero s sent = refl
send_loop_lem os perror (suc n) s sent =
    rw (sent s.world) (send_loop_lem os perror n (record s { world = _ }) sent)
