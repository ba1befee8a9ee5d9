-- ===== src/Host/Closes.antt =====
-- What get_host_ip (src/include/marko/sockaddr.hpp) does with the descriptor that it opens.
use marko_cpp.Prelude.{
  ◌||◌, Bool-cases, arith, refl, ◌≡◌, ◌∙◌, ap, length, inl, inr, Bytes, codes, [], ◌∷◌,
  if◌then◌else◌, is_neg,
}
use marko_cpp.Outcome.{returned}
use marko_cpp.Regex.{in_class, host_class}
use marko_cpp.Regex.Runs.{InClass-all_in}
use marko_cpp.Sockaddr.Inets.{inet_sockaddr_fields}
use marko_cpp.Sockaddr.{htons, ip_of, InetAddr, inet_sockaddr, af_inet}
use marko_cpp.Os.{Os, sock_dgram, inet_at}
use marko_cpp.Socket.Account.{ShowsCloses}
use marko_cpp.Host.{get_host_ip, named}

-- 9.9.9.9:9999, which get_host_ip connects to.
abbrev pub far_away : (os : Os) → InetAddr
far_away os = record {
  sin_family = af_inet;
  sin_port = htons 9999;
  sin_addr = os.net.inet_addr (codes "9.9.9.9");
}

parsed :
    (os : Os)
    → length (os.net.inet_addr (codes "9.9.9.9")) ≡ 4
    → inet_sockaddr os.net (codes "udp://9.9.9.9:9999") ≡ returned (far_away os)
unfolding in_class ip_of
parsed os four =
    inet_sockaddr_fields os.net (codes "udp") (codes "9.9.9.9") (codes "9999") (inl refl) (λ e. cc)
      (InClass-all_in host_class (codes "9.9.9.9") refl) (λ e. cc) (ground arith) four
    ∙ ground arith

pub get_host_ip-named :
    (os : Os) (w : os.World)
    → length (os.net.inet_addr (codes "9.9.9.9")) ≡ 4
    → let opened = os.socket af_inet sock_dgram 0 w in
      get_host_ip os w
      ≡ returned (
          if is_neg opened.0
          then ([], opened.1)
          else named os opened.0 (os.connect_to opened.0 (inet_at (far_away os)) opened.1).1)
unfolding get_host_ip
get_host_ip-named os w four = elim (Bool-cases (is_neg (os.socket af_inet sock_dgram 0 w).0)) [
  | inl none_given ↦ rw none_given refl
  | inr given ↦ rw (given, parsed os four) refl
]

-- Where inet_addr gives four bytes for 9.9.9.9, and only close() closes a descriptor: whatever socket,
-- connect and getsockname answer, get_host_ip returns. Where socket or getsockname fails the text is
-- empty and no descriptor is closed, so that the one that was opened stays open where getsockname
-- fails; otherwise the text is the ip of the name, and exactly the descriptor that was opened is
-- closed. Whether the connect to 9.9.9.9:9999 fails does not matter.
pub get_host_ip-closes :
    (os : Os) (shows : ShowsCloses os) (w : os.World)
    → length (os.net.inet_addr (codes "9.9.9.9")) ≡ 4
    → let opened = os.socket af_inet sock_dgram 0 w in
      let name =
        os.name_of_socket opened.0 (os.connect_to opened.0 (inet_at (far_away os)) opened.1).1 in
      let failed = is_neg opened.0 || is_neg name.0.0 in
      (ip : Bytes) × (after : os.World) × (get_host_ip os w ≡ returned (ip, after))
      × (ip ≡ (if failed then [] else os.net.inet_ntop name.0.1.sin_addr))
      × (shows.closes after ≡ (if failed then shows.closes w else opened.0 ∷ shows.closes w))
get_host_ip-closes os shows w four =
    let opened = os.socket af_inet sock_dgram 0 w in
    let far = inet_at (far_away os) in
    let connected = (os.connect_to opened.0 far opened.1).1 in
    let name = os.name_of_socket opened.0 connected in
    let unclosed =
      shows.of_name opened.0 connected
      ∙ (shows.of_connect opened.0 far opened.1 ∙ shows.of_socket af_inet sock_dgram 0 w) in
    elim (Bool-cases (is_neg opened.0)) [
      | inl none_given ↦ (
        [],
        opened.1,
        get_host_ip-named os w four ∙ rw none_given refl,
        rw none_given,
        rw none_given (shows.of_socket af_inet sock_dgram 0 w),
      )
      | inr given ↦ elim (Bool-cases (is_neg name.0.0)) [
        | inl unnamed ↦ (
          [],
          name.1,
          get_host_ip-named os w four ∙ rw (given, unnamed) refl,
          rw (given, unnamed),
          rw (given, unnamed) unclosed,
        )
        | inr has_name ↦ (
          os.net.inet_ntop name.0.1.sin_addr,
          os.close_fd opened.0 name.1,
          get_host_ip-named os w four ∙ rw (given, has_name) refl,
          rw (given, has_name),
          rw (given, has_name)
              (shows.close_noted opened.0 name.1 ∙ ap (λ l. opened.0 ∷ l) unclosed),
        )
      ]
    ]
