-- ===== src/Tests/Audiences.antt =====
-- A publisher with two receivers, on a network that computes.
use marko_cpp.Prelude.{
  ℕ, Bool, ◌||◌, if◌then◌else◌, eq_bytes, Bytes, codes, List, [], ◌∷◌, ◌++◌, ◌≡◌, refl,
}
use marko_cpp.Outcome.{returned}
use marko_cpp.Sockaddr.{InetAddr, inaddr_broadcast, af_inet, htons}
use marko_cpp.Os.{Os, Address, inet_at, unix_at}
use marko_cpp.Loop.Queue.{at_world}
use marko_cpp.Transport.{udp}
use marko_cpp.Transport.Datagrams.{udp_datagrams}
use marko_cpp.PubSub.{Publisher}
use marko_cpp.PubSub.Audience.{Command, registers, publishes, act_all}
use marko_cpp.PubSub.Audience.Refines.{Post, run, view, run-act_all}
use marko_cpp.Tests.Samples.{os_of, nothing, client_fd}

-- What waits at each receiver; a receiver's ip is its number.
abbrev Shelf : Type 0
Shelf = ℕ → List Bytes

abbrev pub comes_to : InetAddr → ℕ → Bool
comes_to a r = eq_bytes a.sin_addr (r ∷ []) || eq_bytes a.sin_addr inaddr_broadcast

abbrev post_to : Bytes → Address → Shelf → Shelf
post_to msg (inet_at a) w r = if comes_to a r then w r ++ msg ∷ [] else w r
post_to msg (unix_at a) w r = w r

abbrev shelf_os : Os
shelf_os = os_of {W = Shelf} (λ fd w. (nothing, w)) (λ fd. post_to) (λ line w. w)

shelf_post : Post (udp shelf_os) (udp_datagrams shelf_os) client_fd comes_to
shelf_post = record { waiting = λ r w. w r; on_send = λ msg a w r. refl }

abbrev pub addr_of : ℕ → InetAddr
addr_of r = record { sin_family = af_inet; sin_port = htons 9000; sin_addr = r ∷ [] }

abbrev pub everyone : InetAddr
everyone = record { sin_family = af_inet; sin_port = htons 9000; sin_addr = inaddr_broadcast }

abbrev calls : List (Command InetAddr)
calls =
    registers (addr_of 1)
    ∷ publishes (codes "hi")
    ∷ registers everyone
    ∷ publishes (codes "yo")
    ∷ []

abbrev no_addresses : Publisher (udp shelf_os)
no_addresses = record { clientaddrs = [] }

abbrev empty_shelf : Shelf
empty_shelf r = []

run-act_all_example :
    (q : Publisher (udp shelf_os)) × (v : Shelf) × (run
        (udp shelf_os)
        calls
        no_addresses
        (at_world client_fd empty_shelf)
      ≡ (returned q, at_world client_fd v))
    × (view (udp shelf_os) (udp_datagrams shelf_os) client_fd comes_to shelf_post q v
        ≡ act_all comes_to calls (
            view
              (udp shelf_os)
              (udp_datagrams shelf_os)
              client_fd
              comes_to
              shelf_post
              no_addresses
              empty_shelf))
run-act_all_example =
    run-act_all (udp shelf_os) (udp_datagrams shelf_os) client_fd comes_to shelf_post calls
      no_addresses empty_shelf
