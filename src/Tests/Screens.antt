-- ===== src/Tests/Screens.antt =====
-- The programs of examples/ on a system that keeps what is printed.
use marko_cpp.Regex.{in_class}
use marko_cpp.Loop.Queue.{at_world}
use marko_cpp.Host.Closes.{get_host_ip-named}
use marko_cpp.Regex.{host_class}
use marko_cpp.Regex.Runs.{InClass-all_in}
use marko_cpp.Sockaddr.{inet, error_addr}
use marko_cpp.Examples.Ps.Process.{process, process_without_ip}
use marko_cpp.Examples.Ps.Programs.{sent_values}
use marko_cpp.Examples.Bc.{rounds, server, receive_all}
use marko_cpp.Examples.Bc.Together.{server-receive_all}
use marko_cpp.Examples.Inbox.{Inbox, Wire}
use marko_cpp.Examples.Ps.Together.{values, publisher-poll_all}
use marko_cpp.Prelude.{
  replicate, ℤ, ℕ, Bytes, List, [], ◌∷◌, ◌++◌, map, length, codes, pos, negsuc, ◌≡◌, refl, arith,
}
use marko_cpp.Outcome.{returned}
use marko_cpp.Sockaddr.{ip_of, InetAddr}
use marko_cpp.Os.{Os, Received}
use marko_cpp.Message.{pack}
use marko_cpp.Examples.Ps.{publisher, poll_all, max_loop, DataT}
use marko_cpp.Tests.Programs.{data_layout}
use marko_cpp.Tests.Samples.{net, os_of, client_fd, server_fd, client_addr}

-- The messages that wait, and the lines on the screen.
record Screen : Type 0 where
  queue : List Bytes
  shown : List Bytes

abbrev first_queued : List Bytes → Received InetAddr × List Bytes
first_queued [] = (record { num = negsuc 0; written = []; from = client_addr }, [])
first_queued (m ∷ rest) = (record { num = pos (length m); written = m; from = client_addr }, rest)

abbrev screen_os : Os
screen_os =
    os_of {W = Screen}
      (λ fd w. ((first_queued w.queue).0, record w { queue = (first_queued w.queue).1 }))
      (λ fd msg to w. record w { queue = w.queue ++ msg ∷ [] })
      (λ line w. record w { shown = w.shown ++ line ∷ [] })

screen_box : (fd : ℤ) (size : ℕ) → Inbox screen_os fd size
screen_box fd size = record {
  waiting = λ w. w.queue;
  lines = λ w. w.shown;
  on_receive = λ msg rest w e full. rw e (refl, refl, refl, refl);
  on_print = λ line w. (refl, refl);
}

abbrev print_data : DataT ℕ ℕ → Bytes
print_data d = d.a ∷ d.b ∷ []

abbrev value_at : ℕ → DataT ℕ ℕ
value_at i = record { a = 12; b = i }

abbrev ten_values : List (DataT ℕ ℕ)
ten_values = map value_at (0 ∷ 1 ∷ 2 ∷ 3 ∷ 4 ∷ 5 ∷ 6 ∷ 7 ∷ 8 ∷ 9 ∷ [])

abbrev eleven_wait : Screen
eleven_wait = record { queue = map (pack data_layout) ten_values ++ codes "hi" ∷ []; shown = [] }

-- The subscriber's descriptor is the server's.
screen_wire : (to : InetAddr) → Wire screen_os server_fd 2 client_fd to
unfolding screen_box
screen_wire to = record {
  inbox = screen_box server_fd 2;
  on_send = λ msg w. (refl, refl);
  on_close = λ w. (refl, refl);
}

abbrev empty_screen : Screen
empty_screen = record { queue = []; shown = [] }

publisher-poll_all_example :
    (t : Screen) × (poll_all screen_os print_data data_layout (0 ∷ 0 ∷ []) max_loop (
        at_world server_fd
          (publisher screen_os print_data data_layout
            (0 ∷ 0 ∷ [])
            (codes "127.0.0.1")
            value_at
            empty_screen).1.world)
      ≡ (returned tt, at_world server_fd t))
    × (t.shown ≡ map print_data ten_values)
    × (t.queue ≡ [])
unfolding screen_box screen_wire values in_class ip_of
publisher-poll_all_example =
    publisher-poll_all screen_os print_data data_layout (0 ∷ 0 ∷ []) refl (omega arith) value_at
      (codes "127.0.0.1") server_fd 1 (screen_wire _) empty_screen empty_screen (λ e. cc)
      (InClass-all_in host_class (codes "127.0.0.1") refl) refl refl refl

-- The client's descriptor is the server's of the samples.
server-receive_all_example :
    (t : Screen) × (receive_all screen_os
        (0 ∷ 0 ∷ [])
        rounds
        (at_world server_fd (server screen_os empty_screen).1.world)
      ≡ (returned tt, at_world server_fd t))
    × (t.shown ≡ replicate 5 (codes "cast: [69,170,]") ++ replicate 5 (codes "69 170"))
    × (t.queue ≡ [])
unfolding screen_box screen_wire
server-receive_all_example =
    server-receive_all screen_os (0 ∷ 0 ∷ []) server_fd 1 (screen_wire _) empty_screen empty_screen
      empty_screen empty_screen refl refl refl refl refl

-- The same system, where no socket has a name.
abbrev nameless_os : Os
nameless_os = record screen_os { name_of_socket = λ fd w. ((negsuc 0, client_addr), w) }

process_without_ip_example :
    process nameless_os print_data data_layout
      (0 ∷ 0 ∷ [])
      value_at
      (codes "./ps" ∷ codes "p" ∷ [])
      empty_screen
    ≡ returned (
      returned 0,
      sent_values nameless_os print_data data_layout
          (0 ∷ 0 ∷ [])
          value_at
          client_fd
          (inet (error_addr net))
          0
          10
          empty_screen,
    )
process_without_ip_example =
    process_without_ip nameless_os print_data data_layout (0 ∷ 0 ∷ []) value_at (codes "./ps") 1
      empty_screen empty_screen empty_screen (get_host_ip-named nameless_os empty_screen refl) refl
