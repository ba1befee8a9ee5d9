-- ===== src/Tests/Addresses.antt =====
-- The theorems on addresses and regular expressions, on addresses that occur in practice.
use marko_cpp.Prelude.{
  replicate, ap, ◌≤◌, ℕ, Bytes, codes, [], ◌∷◌, ◌++◌, length, ◌≡◌, refl, inl, inr, arith,
  length-append,
}
use marko_cpp.Outcome.{returned, ◌>>=◌}
use marko_cpp.Regex.{ipport, in_class, strip, regex_search, proto}
use marko_cpp.Regex.Spec.{OneOf}
use marko_cpp.Regex.{path_class}
use marko_cpp.Regex.Runs.{InClass-all_in}
use marko_cpp.Sockaddr.{
  af_inet, inaddr_any, ip_of, htons, error_addr, filter, inet_sockaddr, unix_sockaddr, inet2string,
  unix2string,
}
use marko_cpp.Sockaddr.Reference.{parse, parse_inet, filter-parse}
use marko_cpp.Regex.Scan.Agrees.{regex_search-first_at}
use marko_cpp.Regex.Scan.{first_at, address_at, word_at, host_port_at, span}
use marko_cpp.Sockaddr.Inets.{inet_sockaddr_fields, inet_sockaddr-inet2string}
use marko_cpp.Sockaddr.Paths.{reads_back, unix2string-unix_sockaddr, unix_sockaddr_hyphen}
use marko_cpp.Sockaddr.Accepts.{HasAddress}
use marko_cpp.Tests.Samples.{net, home, client_addr}

inet_sockaddr_fields_example :
    inet_sockaddr net (codes "tcp://*:9000")
    ≡ returned (record { sin_family = af_inet; sin_port = htons 9000; sin_addr = inaddr_any })
unfolding in_class ip_of
inet_sockaddr_fields_example =
    inet_sockaddr_fields net (codes "tcp") (codes "*") (codes "9000") (inr refl) (λ e. cc)
      (refl, tt) (λ e. cc) (ground arith) refl

inet_sockaddr-inet2string_example :
    inet_sockaddr net (codes "udp://" ++ inet2string net client_addr) ≡ returned client_addr
inet_sockaddr-inet2string_example =
    inet_sockaddr-inet2string net 35 41 home (omega arith) (omega arith) refl (λ e. cc)
      (ground arith) refl

unix2string-unix_sockaddr_example :
    (unix_sockaddr net (codes "unix:///tmp/uds") >>= unix2string)
    ≡ reads_back (replicate 94 7) (codes "/tmp/uds")
unfolding in_class
unix2string-unix_sockaddr_example =
    unix2string-unix_sockaddr net (codes "/tmp/uds") (λ e. cc)
      (InClass-all_in path_class (codes "/tmp/uds") refl)

unix_sockaddr_hyphen_example :
    unix_sockaddr net (codes "unix://my-socket") ≡ unix_sockaddr net (codes "unix://my")
unfolding in_class
unix_sockaddr_hyphen_example =
    unix_sockaddr_hyphen net (codes "my") (codes "socket") (λ e. cc) (refl, (refl, tt))

-- A text of five characters is too short for a word, `://` and a body.
http_lacks_address : ¬ HasAddress (codes "http:")
http_lacks_address (before, after, w, body, one, ne, al, e) = omega (
  arith,
  ap (length {A = ℕ}) e,
  three_or_more w one,
  length-append before ((w ++ (codes "://" ++ body)) ++ after),
  length-append (w ++ (codes "://" ++ body)) after,
  length-append w (codes "://" ++ body),
  length-append (codes "://") body,
)
  where
    three_or_more :
        (w : Bytes) → OneOf w (codes "udp" ∷ codes "tcp" ∷ codes "unix" ∷ []) → 3 ≤ length w
    three_or_more w (inl e) = rw e (omega arith)
    three_or_more w (inr (inl e)) = rw e (omega arith)
    three_or_more w (inr (inr (inl e))) = rw e (omega arith)
    three_or_more w (inr (inr (inr none_left))) = absurd none_left

-- The first word has no body, and the body of the second one no port.
filter-parse_example : filter net (codes "udp:// tcp://x:y unix://p") ≡ returned (error_addr net)
unfolding parse parse_inet first_at address_at word_at host_port_at span in_class strip
filter-parse_example = filter-parse net (codes "udp:// tcp://x:y unix://p")

regex_search-first_at_example :
    (regex_search (codes "udp:/udp://a b:1") proto ≡ codes "udp://a" ∷ codes "udp" ∷ codes "a" ∷ [])
    × (regex_search (codes "udp:/udp://a b:1") ipport ≡ codes "b:1" ∷ codes "b" ∷ codes "1" ∷ [])
unfolding first_at address_at word_at host_port_at span in_class strip
regex_search-first_at_example = regex_search-first_at (codes "udp:/udp://a b:1")
