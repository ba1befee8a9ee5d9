-- ===== src/Tests/Feeds.antt =====
-- The life of a socket, and a publisher with a subscriber, on operating systems that compute.
use marko_cpp.Prelude.{
  ltb, true, Bytes, codes, List, [], ◌∷◌, ◌++◌, length, pos, negsuc, ◌≡◌, refl, inr, arith, inl,
}
use marko_cpp.Sockaddr.{InetAddr}
use marko_cpp.Os.{Os, Received}
use marko_cpp.Socket.{shuts, binds_to}
use marko_cpp.Socket.Account.{ShowsCloses}
use marko_cpp.SocketUnix.Life as Unix
use marko_cpp.SocketUnix.Life.{unix_life, unix_life_closes}
use marko_cpp.SocketUdp.Life.{calls, sends, receives, life, life_closes}
use marko_cpp.PubSub.{subscriber_loop}
use marko_cpp.PubSub.Polling.{subscriber_loop-takes, noting}
use marko_cpp.Outcome.{returned}
use marko_cpp.Transport.{udp}
use marko_cpp.PubSub.Network.{Network}
use marko_cpp.Host.{get_host_ip}
use marko_cpp.Host.Closes.{get_host_ip-closes}
use marko_cpp.Tests.Samples.{
  home_text, Net, os_of, os, network, client_fd, client_addr, server_addr,
}

abbrev closes_shown : ShowsCloses os
closes_shown = record {
  closes = λ w. w.closed;
  close_noted = λ fd w. refl;
  of_socket = λ family type proto w. refl;
  of_set_option = λ fd level name val w. refl;
  of_ioctl = λ fd on w. refl;
  of_bind = λ fd a w. refl;
  of_connect = λ fd a w. refl;
  of_unlink = λ path w. refl;
  of_recvfrom = λ fd size flags w. refl;
  of_recvfrom_unix = λ fd size flags w. refl;
  of_send = λ fd msg flags a w. refl;
  of_select_read = λ fd t w. refl;
  of_select_write = λ fd t w. refl;
  of_name = λ fd w. refl;
  of_print = λ line w. refl;
}

-- The address has no form, which closes the socket; `close` and the receive then have no descriptor.
life_closes_example :
    closes_shown.closes (
      life os
        (sends (codes "hi") server_addr 0
          ∷ calls (binds_to (codes "nowhere")) refl
          ∷ calls shuts refl
          ∷ receives 5 0
          ∷ [])
        (network []))
    ≡ client_fd ∷ []
life_closes_example =
    life_closes os closes_shown
      (sends (codes "hi") server_addr 0
        ∷ calls (binds_to (codes "nowhere")) refl
        ∷ calls shuts refl
        ∷ receives 5 0
        ∷ [])
      (network []) (inr refl)

-- A receive that times out closes the socket, and `bind` then fails.
unix_life_closes_example :
    closes_shown.closes (
      unix_life os
        (Unix.receives 5 0 ∷ Unix.calls (binds_to (codes "unix://my")) refl ∷ [])
        (network []))
    ≡ client_fd ∷ []
unix_life_closes_example =
    unix_life_closes os closes_shown
      (Unix.receives 5 0 ∷ Unix.calls (binds_to (codes "unix://my")) refl ∷ []) (network [])
      (inr refl)

get_host_ip-closes_example :
    (ip : Bytes) × (after : Net) × (get_host_ip os (network []) ≡ returned (ip, after))
    × (ip ≡ home_text)
    × (closes_shown.closes after ≡ client_fd ∷ [])
get_host_ip-closes_example = get_host_ip-closes os closes_shown (network []) refl

-- What waits for the subscriber, and what its callback wrote down.
record Feed : Type 0 where
  waits : List Bytes
  wrote : List Bytes

abbrev first : List Bytes → Received InetAddr × List Bytes
first [] = (record { num = negsuc 0; written = []; from = server_addr }, [])
first (m ∷ rest) = (record { num = pos (length m); written = m; from = server_addr }, rest)

abbrev feed_os : Os
feed_os =
    os_of {W = Feed} (λ fd w. ((first w.waits).0, record w { waits = (first w.waits).1 }))
      (λ fd msg to w. record w { waits = w.waits ++ msg ∷ [] }) (λ line w. w)

abbrev write_down : Bytes → Feed → Feed
write_down msg w = record w { wrote = w.wrote ++ msg ∷ [] }

feed_network : Network feed_os client_fd client_addr 2 write_down
feed_network = record {
  waiting = λ w. w.waits;
  seen = λ w. w.wrote;
  on_send = λ fd msg w. (refl, inl refl);
  on_receive = λ msg rest w e full. rw e (rw full refl, refl, refl, refl);
  on_timeout = λ w e. rw e (refl, refl, refl);
  on_note = λ msg w. (refl, refl);
}

abbrev silence : Feed
silence = record { waits = []; wrote = [] }

abbrev two_wait : Feed
two_wait = record { waits = codes "hi" ∷ codes "yo" ∷ codes "no" ∷ []; wrote = [] }

-- The event is clear behind the second message; the third still waits.
subscriber_loop-takes_example :
    (t : Feed) × (subscriber_loop
        (udp feed_os)
        (λ w. ltb (length w.wrote) 2)
        (noting feed_os client_fd client_addr 2 write_down)
        3
        (record { fd = client_fd; world = two_wait })
      ≡ (returned true, record { fd = client_fd; world = t }))
    × (t.wrote ≡ codes "hi" ∷ codes "yo" ∷ [])
    × (t.waits ≡ codes "no" ∷ [])
unfolding feed_network
subscriber_loop-takes_example =
    subscriber_loop-takes feed_os client_fd client_addr 2 write_down feed_network (omega arith)
      (λ w. ltb (length w.wrote) 2) 2 (λ w. refl) (codes "hi" ∷ codes "yo" ∷ []) (codes "no" ∷ [])
      two_wait refl (refl, (refl, tt)) refl 3 (omega arith)
