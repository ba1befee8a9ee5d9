-- ===== src/Examples/Ps/Process.antt =====
-- examples/ps.cpp as a process: `HOST`, which is computed before `main` starts, and `main`.
use marko_cpp.Prelude.{ℕ, Bytes, codes, List, [], ◌∷◌, pos, ◌≡◌, refl}
use marko_cpp.Outcome.{Outcome, returned}
use marko_cpp.Regex.{regex_search, search_from, match_here, words, plus, greedy, strip, in_class}
use marko_cpp.Sockaddr.{af_inet, inet, error_addr, filter, inet_sockaddr, proto_match, inet_match}
use marko_cpp.Os.{Os, sock_dgram}
use marko_cpp.Socket.{socket_err, new_socket, make_socket, guard, close}
use marko_cpp.SocketUdp.{constructs, destructs}
use marko_cpp.PubSub.{register_addr}
use marko_cpp.Message.{Layout}
use marko_cpp.Prelude.Decimal.{to_string}
use marko_cpp.Host.{get_host_ip}
use marko_cpp.Examples.Choice.{with_host, Run, run, pick}
use marko_cpp.Examples.Ps.{to_string, DataT, max_loop, publisher, subscribes}
use marko_cpp.Examples.Ps.Programs.{sent_values, publish_all_lem}

module _ (os : Os) {Real Int : Type 0} (printed : DataT Real Int → Bytes)
    (l : Layout (DataT Real Int)) (garbage : Bytes) (value : ℕ → DataT Real Int) where
  unfoldable pub main : Bytes → List Bytes → Run os
  main host =
      pick os (codes "Usage: ./ps p|s") (codes "p")
        (λ w. run (publisher os printed l garbage host value w)) (codes "s")
        (λ w. run (subscribes os printed l garbage w))

  unfoldable pub process : List Bytes → os.World → Outcome (Outcome ℕ × os.World)
  process args = with_host os (λ host. main host args)

  publisher_nowhere :
      (fd : ℕ) (w w1 : os.World)
      → os.socket af_inet sock_dgram 0 w ≡ (pos fd, w1)
      → publisher os printed l garbage [] value w ≡ (
        returned tt,
        record {
          fd = socket_err;
          world = os.close_fd (pos fd) (
              sent_values os printed l garbage value
                (pos fd)
                (inet (error_addr os.net))
                0
                max_loop
                w1);
        },
      )
  unfolding publisher constructs destructs close make_socket guard new_socket register_addr
      inet_sockaddr filter proto_match inet_match regex_search search_from match_here words plus
      greedy strip in_class to_string
  publisher_nowhere fd w w1 opened = rw opened (
      rw (
        publish_all_lem os printed l garbage value (inet (error_addr os.net)) 0 max_loop
          (record { fd = pos fd; world = w1 })))

  -- The process with the argument `p`, where get_host_ip finds no ip and the system then gives a
  -- socket: the publisher sends its ten values to the address that stands for a text without a form,
  -- of family 100, and closes its socket, and the exit status is 0, whatever becomes of the sends.
  pub process_without_ip :
      (program : Bytes) (fd : ℕ) (w w1 w2 : os.World)
      → get_host_ip os w ≡ returned ([], w1)
      → os.socket af_inet sock_dgram 0 w1 ≡ (pos fd, w2)
      → process (program ∷ codes "p" ∷ []) w
        ≡ returned (
          returned 0,
          os.close_fd (pos fd) (
              sent_values os printed l garbage value
                (pos fd)
                (inet (error_addr os.net))
                0
                max_loop
                w2),
        )
  unfolding process main pick with_host
  process_without_ip program fd w w1 w2 none_found opened =
      rw (none_found, publisher_nowhere fd w1 w2 opened) refl
