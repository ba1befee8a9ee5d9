-- ===== src/Tests/Meshes.antt =====
-- Publishers and subscribers on a network that computes.
use marko_cpp.Prelude.{
  Bool-cases, ℕ, ◌==◌, if◌then◌else◌, Bytes, codes, List, [], ◌∷◌, ◌++◌, length, ℤ, pos, negsuc,
  ◌≡◌, refl, inl, inr, arith,
}
use marko_cpp.Outcome.{returned}
use marko_cpp.Sockaddr.{InetAddr}
use marko_cpp.Os.{Os, Received, Address, inet_at, unix_at}
use marko_cpp.SocketUdp
use marko_cpp.SocketUdp.{received}
use marko_cpp.Transport.{udp}
use marko_cpp.Transport.Datagrams.{udp_datagrams}
use marko_cpp.Socket.{guard}
use marko_cpp.Loop.Queue.{at_world}
use marko_cpp.PubSub.{publish, send_all, Publisher}
use marko_cpp.PubSub.Mesh.{Network, start, publishes, polls, published, polled}
use marko_cpp.PubSub.Mesh.Shares.{Share, Reach-Share}
use marko_cpp.Tests.Audiences.{comes_to, addr_of, everyone}
use marko_cpp.Tests.Samples.{os_of, nothing, client_fd, client_addr}

-- What waits at each subscriber, and what it wrote down.
record Town : Type 0 where
  boxes : ℕ → List Bytes
  wrote : ℕ → List Bytes

abbrev take_first : ℕ → List Bytes → Town → Received InetAddr × Town
take_first r [] w = (nothing, w)
take_first r (m ∷ rest) w = (
  record { num = pos (length m); written = m; from = client_addr },
  record w { boxes = λ b. if b == r then rest else w.boxes b },
)

abbrev town_take : ℤ → Town → Received InetAddr × Town
town_take (pos r) w = take_first r (w.boxes r) w
town_take (negsuc n) w = (nothing, w)

abbrev town_put : Bytes → Address → Town → Town
town_put msg (inet_at a) w = record w {
  boxes = λ r. if comes_to a r then w.boxes r ++ msg ∷ [] else w.boxes r;
}
town_put msg (unix_at a) w = w

abbrev town_os : Os
town_os = os_of {W = Town} town_take (λ fd. town_put) (λ line w. w)

abbrev write_by : ℕ → Bytes → Town → Town
write_by r msg w = record w { wrote = λ b. if b == r then w.wrote b ++ msg ∷ [] else w.wrote b }

town_network : Network (udp town_os) (udp_datagrams town_os) comes_to pos 2 write_by
unfolding SocketUdp.recv
town_network = record {
  waiting = λ r w. w.boxes r;
  seen = λ r w. w.wrote r;
  on_send = λ fd msg a w r. (
    refl,
    elim (Bool-cases (comes_to a r)) [ inl e ↦ inr (e, rw e refl) | inr e ↦ inl (rw e refl) ],
  );
  on_receive =
      λ r msg rest w e full. rw e (refl, refl, ground arith, λ b ne. ground arith, λ b. refl);
  on_idle = λ r w e none. rw e (λ b. refl, λ b. refl);
  on_note = λ r msg w. (λ b. refl, ground arith, λ b ne. ground arith);
}

abbrev quiet_town : Town
quiet_town = record { boxes = λ r. []; wrote = λ r. [] }

abbrev to_first : Publisher (udp town_os)
to_first = record { clientaddrs = addr_of 1 ∷ [] }

abbrev to_all : Publisher (udp town_os)
to_all = record { clientaddrs = addr_of 1 ∷ everyone ∷ [] }

abbrev first_sent : Town
first_sent =
    published (udp town_os) comes_to pos 2 write_by client_fd to_first (codes "hi") quiet_town

abbrev both_sent : Town
both_sent =
    published (udp town_os) comes_to pos 2 write_by (pos 7) to_all (codes "yo")
      (polled (udp town_os) comes_to pos 2 write_by 5 first_sent)

nothing_comes : (SocketUdp.recv town_os 2 0 (at_world (pos 5) first_sent)).0 ≡ returned []
unfolding SocketUdp.recv received publish send_all SocketUdp.sendto guard
nothing_comes = refl

-- A message to the first subscriber, a round of another one that gets nothing, and a message of
-- another publisher.
Reach-Share_example :
    Share
      (udp town_os)
      (udp_datagrams town_os)
      comes_to
      pos
      2
      write_by
      town_network
      (omega arith)
      1
      both_sent
      (codes "hi" ∷ codes "yo" ∷ codes "yo" ∷ [])
unfolding town_network
Reach-Share_example =
    Reach-Share (udp town_os) (udp_datagrams town_os) comes_to pos 2 write_by town_network
      (omega arith) (λ r. refl) (λ r. refl)
      (publishes (pos 7) to_all (codes "yo") refl
        (polls 5 (inr nothing_comes) (publishes client_fd to_first (codes "hi") refl start)))
      1
