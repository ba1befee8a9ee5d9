-- ===== src/SocketInfo.antt =====
-- src/include/marko/info.hpp: the class SocketInfo, which prints the options of a descriptor. The
-- object is its descriptor; what it prints is the list of the lines.
pub mod Lines
use marko_cpp.Prelude.{
  ℕ, suc, Bytes, codes, List, [], ◌∷◌, ◌++◌, Bool, true, false, ◌==◌, ◌||◌, if◌then◌else◌, ℤ, pos,
  negsuc, is_neg, eq_int, Option, none, some, ◌≡◌, refl,
}
use marko_cpp.Prelude.Decimal.{to_string}
use marko_cpp.Outcome.{Outcome, returned, undefined}
use marko_cpp.Sockaddr.{inet2string}
use marko_cpp.Os.{
  Os, Level, sol_socket, ipproto_ip, OptName, so_type, so_acceptconn, so_broadcast, so_dontroute,
  so_error, so_oobinline, so_reuseaddr, so_reuseport, so_rcvbuf, so_rcvlowat, so_sndbuf,
  so_sndlowat, ip_multicast_if, ip_multicast_loop, ip_multicast_ttl, ip_ttl,
}
use marko_cpp.Machine.{Sock, M, ◌>>=◌, ◌>>◌, ret, lift, sys}

pub data DataType : Type 0 where
  int_type bool_type type_type timeval_type : DataType

pub record SoOpt : Type 0 where
  pub val : OptName
  pub description : Bytes
  pub type : DataType

unfoldable pub socket_opts_sol : List SoOpt
socket_opts_sol =
    record { val = so_type; description = codes "socket type"; type = type_type }
    ∷ record { val = so_acceptconn; description = codes "Accepting connections"; type = bool_type }
    ∷ record {
      val = so_broadcast;
      description = codes "Broadcast messages supported";
      type = bool_type;
    }
    ∷ record { val = so_dontroute; description = codes "Bypass normal routing"; type = bool_type }
    ∷ record { val = so_error; description = codes "Socket error status"; type = bool_type }
    ∷ record {
      val = so_oobinline;
      description = codes "Out-of-band data is transmitted in line";
      type = bool_type;
    }
    ∷ record { val = so_reuseaddr; description = codes "SO_REUSEADDR"; type = bool_type }
    ∷ record { val = so_reuseport; description = codes "SO_REUSEPORT"; type = bool_type }
    ∷ record { val = so_rcvbuf; description = codes "Receive buffer size"; type = int_type }
    ∷ record { val = so_rcvlowat; description = codes "receive low water mark"; type = int_type }
    ∷ record { val = so_sndbuf; description = codes "Send buffer size"; type = int_type }
    ∷ record { val = so_sndlowat; description = codes "send low water mark"; type = int_type }
    ∷ []

abbrev pub sock_stream_number : ℕ
sock_stream_number = 1

abbrev pub sock_dgram_number : ℕ
sock_dgram_number = 2

abbrev pub sock_raw_number : ℕ
sock_raw_number = 3

-- `socketTypes[val]`: the map's operator gives an empty string for a missing key.
unfoldable pub socket_types : ℕ → Bytes
socket_types n =
    if n == sock_dgram_number
    then codes "DGRAM"
    else if n == sock_raw_number
    then codes "RAW"
    else if n == sock_stream_number
    then codes "STREAM"
    else []

-- `%d` of a signed number.
abbrev pub print_int : ℤ → Bytes
print_int (pos n) = to_string n
print_int (negsuc n) = codes "-" ++ to_string (suc n)

abbrev pub yes_or : Bytes → Bytes → ℕ → Bytes
yes_or on off val = if val == 0 then off else on

-- The lines of one option; a `Timeval` option prints nothing.
unfoldable pub so_line : SoOpt → ℕ → List Bytes
unfolding socket_types
so_line m val = elim m.type [
  | int_type ↦ (codes "  " ++ (m.description ++ (codes ": " ++ to_string val))) ∷ []
  | bool_type ↦
      (codes "  " ++ (m.description ++ (codes ": " ++ yes_or (codes "true") (codes "false") val)))
      ∷ []
  | type_type ↦ (codes "  " ++ (m.description ++ (codes ": " ++ socket_types val))) ∷ []
  | timeval_type ↦ []
]

-- A variable that a failed call leaves as it was; `none` is a variable that was never written.
abbrev pub after_call {ℓ} : {A : Type ℓ} → Option A → Option A → Option A
after_call none old = old
after_call (some new) old = some new

-- Reading a variable that was never written has no meaning.
abbrev pub read {ℓ} : {A : Type ℓ} → Option A → Outcome A
read none = undefined
read (some a) = returned a

module _ (os : Os) where
  unfoldable pub so_lines : List SoOpt → Option ℕ → M os.World (List Bytes)
  unfolding so_line
  so_lines [] val = ret []
  so_lines (m ∷ opts) val = do
    got ← sys (λ fd. os.get_byte fd sol_socket m.val)
    val' ← lift (read (after_call got val))
    rest ← so_lines opts (some val')
    ret (so_line m val' ++ rest)

  unfoldable pub info_so : M os.World (List Bytes)
  info_so = do
    opts ← so_lines socket_opts_sol none
    ret (codes " [Socket Layer]-----------------" ∷ opts)

  -- `struct in_addr addr = {0}`; the three bytes share the variable `val`.
  unfoldable pub info_ip : M os.World (List Bytes)
  info_ip = do
    a ← sys (λ fd. os.get_addr fd ipproto_ip ip_multicast_if)
    addr ← lift (read (after_call a (some (0 ∷ 0 ∷ 0 ∷ 0 ∷ []))))
    b ← sys (λ fd. os.get_byte fd ipproto_ip ip_multicast_loop)
    loopback ← lift (read (after_call b none))
    c ← sys (λ fd. os.get_byte fd ipproto_ip ip_multicast_ttl)
    multicast_ttl ← lift (read (after_call c (some loopback)))
    d ← sys (λ fd. os.get_byte fd ipproto_ip ip_ttl)
    ttl ← lift (read (after_call d (some multicast_ttl)))
    ret (
        codes " [IP Protocol]-----------------"
        ∷ (codes "  multicast IF: " ++ os.net.inet_ntop addr)
        ∷ (codes "  multicast loopback: " ++ yes_or (codes "enabled") (codes "disabled") loopback)
        ∷ (codes "  multicast TTL: " ++ to_string multicast_ttl)
        ∷ (codes "  IP TTL: " ++ to_string ttl)
        ∷ [])

  -- Unlike the method of Socket, it gives an empty text where the call fails.
  unfoldable pub getsockname : M os.World Bytes
  getsockname = do
    r ← sys os.name_of_socket
    ret (if is_neg r.0 then [] else inet2string os.net r.1)

  abbrev pub no_lines : M os.World (List Bytes)
  no_lines = ret []

  unfoldable pub info : Bytes → M os.World (List Bytes)
  info name s =
      (do
        address ← getsockname
        t ← sys (λ fd. os.get_int fd sol_socket so_type)
        type ← lift (read t)
        so ←
            (if eq_int type (pos sock_dgram_number) || eq_int type (pos sock_stream_number)
              then info_so
              else no_lines)
        ip ← (if eq_int type (pos sock_dgram_number) then info_ip else no_lines)
        ret (
            (codes "[" ++ (name ++ codes " Socket] ====================================="))
            ∷ (codes "  bind/connect to: " ++ address)
            ∷ (codes "  file descriptor: " ++ print_int s.fd)
            ∷ (so ++ ip)))
        s
