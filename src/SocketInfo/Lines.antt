-- ===== src/SocketInfo/Lines.antt =====
-- What SocketInfo (src/include/marko/info.hpp) prints of the options.
use marko_cpp.Prelude.{
  ℕ, ◌==◌, Bytes, codes, List, [], ◌∷◌, ◌++◌, if◌then◌else◌, Option, none, some,
}
use marko_cpp.Prelude.Decimal.{to_string}
use marko_cpp.Outcome.{Outcome, returned, undefined}
use marko_cpp.Os.{
  Os, OptName, so_acceptconn, so_broadcast, so_dontroute, so_error, so_oobinline, so_reuseaddr,
  so_reuseport, so_rcvbuf, so_rcvlowat, so_sndbuf, so_sndlowat,
}
use marko_cpp.SocketInfo.{SoOpt, so_line}

-- A byte that a failed read leaves as it was.
abbrev pub still : Option ℕ → ℕ → ℕ
still none old = old
still (some n) old = n

abbrev pub truth : ℕ → Bytes
truth n = if n == 0 then codes "false" else codes "true"

-- The names of SOCK_STREAM, SOCK_DGRAM and SOCK_RAW by their numbers.
abbrev pub type_text : ℕ → Bytes
type_text n =
    if n == 1
    then codes "STREAM"
    else if n == 2
    then codes "DGRAM"
    else if n == 3
    then codes "RAW"
    else []

-- The eleven lines behind the one of the type, from its byte and the answers of the other reads.
abbrev pub eleven_lines : (OptName → Option ℕ) → ℕ → List Bytes
eleven_lines got type =
    let accepting = still (got so_acceptconn) type in
    let broadcast = still (got so_broadcast) accepting in
    let unrouted = still (got so_dontroute) broadcast in
    let error = still (got so_error) unrouted in
    let oob = still (got so_oobinline) error in
    let same_addr = still (got so_reuseaddr) oob in
    let same_port = still (got so_reuseport) same_addr in
    let receives = still (got so_rcvbuf) same_port in
    let least_received = still (got so_rcvlowat) receives in
    let sends = still (got so_sndbuf) least_received in
    let least_sent = still (got so_sndlowat) sends in
    (codes "  Accepting connections: " ++ truth accepting)
    ∷ (codes "  Broadcast messages supported: " ++ truth broadcast)
    ∷ (codes "  Bypass normal routing: " ++ truth unrouted)
    ∷ (codes "  Socket error status: " ++ truth error)
    ∷ (codes "  Out-of-band data is transmitted in line: " ++ truth oob)
    ∷ (codes "  SO_REUSEADDR: " ++ truth same_addr)
    ∷ (codes "  SO_REUSEPORT: " ++ truth same_port)
    ∷ (codes "  Receive buffer size: " ++ to_string receives)
    ∷ (codes "  receive low water mark: " ++ to_string least_received)
    ∷ (codes "  Send buffer size: " ++ to_string sends)
    ∷ (codes "  send low water mark: " ++ to_string least_sent)
    ∷ []

abbrev pub twelve_lines : (OptName → Option ℕ) → ℕ → List Bytes
twelve_lines got type = (codes "  socket type: " ++ type_text type) ∷ eleven_lines got type

unfoldable lines_after : (OptName → Option ℕ) → ℕ → List SoOpt → List Bytes
lines_after got old [] = []
lines_after got old (m ∷ opts) =
    so_line m (still (got m.val) old) ++ lines_after got (still (got m.val) old) opts

-- The lines where no byte was read before, from the answer of the first read.
abbrev lines_from : (OptName → Option ℕ) → SoOpt → List SoOpt → Option ℕ → Outcome (List Bytes)
lines_from got m opts none = undefined
lines_from got m opts (some n) = returned (so_line m n ++ lines_after got n opts)

unfoldable lines_first : (OptName → Option ℕ) → List SoOpt → Outcome (List Bytes)
lines_first got [] = returned []
lines_first got (m ∷ opts) = lines_from got m opts (got m.val)
