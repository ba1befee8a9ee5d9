-- ===== src/Tests/Closed.antt =====
-- A closed socket on a system that refuses calls on it.
use marko_cpp.Prelude.{[], ℤ, pos, negsuc, is_neg, if◌then◌else◌}
use marko_cpp.Os.{Os}
use marko_cpp.Machine.{Sock}
use marko_cpp.Socket.{close}
use marko_cpp.Tests.Samples.{Net, os, network, client_fd, client_addr}

abbrev result : ℤ → ℤ
result fd = if is_neg fd then negsuc 0 else pos 0

abbrev strict_os : Os
strict_os = record os {
  set_option = λ fd level name val w. (result fd, w);
  ioctl_nonblocking = λ fd on w. (result fd, w);
  bind_to = λ fd a w. (result fd, w);
  name_of_socket = λ fd w. ((result fd, client_addr), w);
}

-- The client's socket behind `close`.
abbrev closed_client : Sock Net
closed_client = (close strict_os (record { fd = client_fd; world = network [] })).1
