-- ===== src/Tests/Office.antt =====
-- Two requesters and a replier on a system that keeps a queue of requests and a box for each
-- requester.
use marko_cpp.Prelude.{
  ap, ◌∙◌, ℕ, suc, ◌==◌, Bytes, codes, List, [], ◌∷◌, ◌++◌, length, if◌then◌else◌, ℤ, pos, negsuc,
  Option, none, some, ◌≡◌, refl, inl, arith,
}
use marko_cpp.Sockaddr.{InetAddr, af_inet}
use marko_cpp.Os.{Os, Received, Address, inet_at, unix_at}
use marko_cpp.Transport.{udp}
use marko_cpp.Transport.Datagrams.{udp_datagrams}
use marko_cpp.RequestReply
use marko_cpp.RequestReply.{answer, call_callback}
use marko_cpp.SocketUdp
use marko_cpp.SocketUdp.{received}
use marko_cpp.Socket.{guard}
use marko_cpp.RequestReply.Network.{Network, asked, served, got, start, asks, serves, gets}
use marko_cpp.RequestReply.Network.Shares.{Fair, Reach-Fair}
use marko_cpp.Tests.Samples.{os_of, home, server_fd, server_addr, reply_of}

record Office : Type 0 where
  queue : List (ℕ × Bytes)
  boxes : ℕ → List Bytes

-- The requester of a descriptor and of an address.
abbrev desk : ℕ → ℤ
desk i = pos (suc (suc (suc i)))

abbrev desk_of : ℤ → Option ℕ
desk_of (pos (suc (suc (suc i)))) = some i
desk_of _ = none

abbrev desk_addr : ℕ → InetAddr
desk_addr i = record { sin_family = af_inet; sin_port = i ∷ []; sin_addr = home }

abbrev addressee : Bytes → ℕ
addressee (i ∷ port) = i
addressee [] = 0

abbrev put : ℕ → Bytes → (ℕ → List Bytes) → ℕ → List Bytes
put i m boxes j = if j == i then boxes j ++ m ∷ [] else boxes j

abbrev nothing_there : Received InetAddr
nothing_there = record { num = negsuc 0; written = []; from = server_addr }

abbrev whole_from : Bytes → InetAddr → Received InetAddr
whole_from m from = record { num = pos (length m); written = m; from = from }

abbrev take_request : List (ℕ × Bytes) → Received InetAddr × List (ℕ × Bytes)
take_request [] = (nothing_there, [])
take_request ((i, m) ∷ rest) = (whole_from m (desk_addr i), rest)

abbrev take_reply : List Bytes → Received InetAddr × List Bytes
take_reply [] = (nothing_there, [])
take_reply (m ∷ rest) = (whole_from m server_addr, rest)

abbrev take_at : Option ℕ → Office → Received InetAddr × Office
take_at none w = ((take_request w.queue).0, record w { queue = (take_request w.queue).1 })
take_at (some i) w = (
  (take_reply (w.boxes i)).0,
  record w { boxes = λ j. if j == i then (take_reply (w.boxes i)).1 else w.boxes j },
)

abbrev send_from : Option ℕ → Bytes → Address → Office → Office
send_from (some i) m to w = record w { queue = w.queue ++ (i, m) ∷ [] }
send_from none m (inet_at to) w = record w { boxes = put (addressee to.sin_port) m w.boxes }
send_from none m (unix_at to) w = w

abbrev office_os : Os
office_os =
    os_of {W = Office} (λ fd. take_at (desk_of fd)) (λ fd. send_from (desk_of fd)) (λ line w. w)

put_own : (i : ℕ) (m : Bytes) (boxes : ℕ → List Bytes) → put i m boxes i ≡ boxes i ++ m ∷ []
put_own i m boxes = ground arith

take_own : (i : ℕ) (x y : List Bytes) → (if i == i then x else y) ≡ x
take_own i x y = ground arith

office : Network (udp office_os) (udp_datagrams office_os) server_fd server_addr 2 3 desk desk_addr
office = record {
  requests = λ w. w.queue;
  inbox = λ i w. w.boxes i;
  on_ask = λ i m w. (inl refl, λ j. refl);
  on_take = λ i m rest w e full. rw e (refl, refl, λ j. refl);
  on_timeout = λ w e. rw e (refl, refl, λ j. refl);
  on_reply = λ i m w. (refl, inl (put_own i m w.boxes), λ j ne. ground arith);
  on_get = λ i m rest w e full. (
    rw e refl,
    rw e refl,
    take_own i (take_reply (w.boxes i)).1 (w.boxes i) ∙ rw e refl,
    refl,
    λ j ne. ground arith,
  );
}

abbrev before_work : Office
before_work = record { queue = []; boxes = λ i. [] }

-- Requester 0 asks, requester 1 asks, the replier serves twice, and requester 1 gets its reply.
abbrev two_asked : Office
two_asked =
    asked (udp office_os) server_fd server_addr 2 3 desk reply_of 1 (codes "me")
      (asked (udp office_os) server_fd server_addr 2 3 desk reply_of 0 (codes "hi") before_work)

abbrev two_served : Office
two_served =
    served (udp office_os) server_fd server_addr 2 3 desk reply_of
      (served (udp office_os) server_fd server_addr 2 3 desk reply_of two_asked)

Reach-Fair_example :
    Fair
      (udp office_os)
      (udp_datagrams office_os)
      server_fd
      server_addr
      2
      3
      desk
      desk_addr
      reply_of
      office
      (omega arith)
      (omega arith)
      (λ m full. ap suc full)
      (got (udp office_os) server_fd server_addr 2 3 desk reply_of 1 two_served).1
      ((0, codes "hi") ∷ (1, codes "me") ∷ [])
      ((1, codes "!me") ∷ [])
unfolding office RequestReply.once answer call_callback SocketUdp.recvfrom SocketUdp.recv
    SocketUdp.sendto received guard
Reach-Fair_example =
    Reach-Fair (udp office_os) (udp_datagrams office_os) server_fd server_addr 2 3 desk desk_addr
      reply_of office (omega arith) (omega arith) (λ m full. ap suc full) refl (λ i. refl)
      (gets 1 (codes "!me") (λ e. cc) refl
        (serves (serves (asks 1 (codes "me") refl (asks 0 (codes "hi") refl start)))))
