-- ===== src/Sockaddr/Classes.antt =====
-- The characters of hosts, ports and paths against the classes of the two regular expressions.
use marko_cpp.Prelude.{ℕ, true, ◌≡◌, arith}
use marko_cpp.Prelude.Decimal.{IsDigit}
use marko_cpp.Regex.{in_class, path_class, host_class, port_class}

pub host-path : (c : ℕ) → in_class host_class c ≡ true → in_class path_class c ≡ true
unfolding in_class
host-path c h = ground arith

pub digit-path : (c : ℕ) → IsDigit c → in_class path_class c ≡ true
unfolding in_class
digit-path c h = ground arith

pub digit-port : (c : ℕ) → IsDigit c → in_class port_class c ≡ true
unfolding in_class
digit-port c h = ground arith
