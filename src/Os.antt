-- ===== src/Os.antt =====
-- The operating system and libc, which the library calls: the parameter `Os`. A call takes the state
-- of the world and gives its result with the next state. Nothing is assumed of a call here; what a
-- theorem needs is among its hypotheses.
use marko_cpp.Prelude.{Option, ℕ, Bytes, ℤ, Bool}
use marko_cpp.Sockaddr.{Inet, InetAddr, UnixAddr}
use marko_cpp.Time.{Timeval}

pub data SockType : Type 0 where
  sock_dgram sock_stream : SockType

pub data Level : Type 0 where
  sol_socket ipproto_ip : Level
  other_level : ℕ → Level

pub data OptName : Type 0 where
  so_rcvtimeo so_reuseport so_reuseaddr so_broadcast ip_multicast_loop : OptName
  so_type so_acceptconn so_dontroute so_error so_oobinline so_rcvbuf so_rcvlowat : OptName
  so_sndbuf so_sndlowat ip_multicast_if ip_multicast_ttl ip_ttl : OptName
  other_name : ℕ → OptName

-- What the pointer of setsockopt points to.
pub data OptVal : Type 0 where
  int_val : ℤ → OptVal
  time_val : Timeval → OptVal

-- What a `sockaddr*` points to.
pub data Address : Type 0 where
  inet_at : InetAddr → Address
  unix_at : UnixAddr → Address

-- The result of recvfrom, what it wrote into the buffer, and the sender's address.
pub record Received (A : Type 0) : Type 0 where
  pub num : ℤ
  pub written : Bytes
  pub from : A

pub record Os : Type 1 where
  pub World : Type 0
  pub net : Inet
  pub socket : ℕ → SockType → ℕ → World → ℤ × World
  pub close_fd : ℤ → World → World
  pub set_option : ℤ → Level → OptName → OptVal → World → ℤ × World
  -- ioctl(fd, FIONBIO, &on)
  pub ioctl_nonblocking : ℤ → ℤ → World → ℤ × World
  pub bind_to : ℤ → Address → World → ℤ × World
  pub connect_to : ℤ → Address → World → ℤ × World
  pub unlink : Bytes → World → World
  -- the same call, for the two types of address; the sender's address starts as zeros
  pub recvfrom_in : ℤ → ℕ → ℕ → World → Received InetAddr × World
  pub recvfrom_un : ℤ → ℕ → ℕ → World → Received UnixAddr × World
  pub send_to : ℤ → Bytes → ℕ → Address → World → ℤ × World
  -- select on one descriptor: its result, and whether the descriptor is in the set afterwards
  pub select_read : ℤ → Timeval → World → (ℤ × Bool) × World
  pub select_write : ℤ → Timeval → World → (ℤ × Bool) × World
  -- getsockopt into an `int`, an `unsigned char` or four bytes; `none` where it fails and writes nothing
  pub get_int : ℤ → Level → OptName → World → Option ℤ × World
  pub get_byte : ℤ → Level → OptName → World → Option ℕ × World
  pub get_addr : ℤ → Level → OptName → World → Option Bytes × World
  pub name_of_socket : ℤ → World → (ℤ × InetAddr) × World
  -- strerror(errno)
  pub error_text : World → Bytes
  -- a line to std::cout
  pub print_line : Bytes → World → World
