-- ===== src/Socket/Descriptor.antt =====
-- The life of the descriptor of a Socket (src/include/marko/socket.hpp): closing, guarding, and what
-- becomes of a connect to a Unix path.
use marko_cpp.Prelude.{
  leb_iff, ◌≤◌, length, Bytes, codes, [], ◌++◌, true, ℤ, is_neg, ◌≡◌, ◌≢◌, arith,
}
use marko_cpp.Outcome.{undefined}
use marko_cpp.Regex.{path_class}
use marko_cpp.Regex.Runs.{InClass}
use marko_cpp.Sockaddr.{sun_path_size}
use marko_cpp.Os.{Os, unix_at}
use marko_cpp.Machine.{Sock, ◌>>◌}
use marko_cpp.Socket.Failure.{Fails, guard-Fails}
use marko_cpp.Socket.Paths.{named_path, bind-connect_unix}
use marko_cpp.Socket.{close, guarded, available, connect}

module _ (os : Os) where
  -- A second `close` changes neither the object nor the world.
  pub close-close : (s : Sock os.World) → (close os >> close os) s ≡ close os s
  unfolding close
  close-close s = ground arith

  -- After `close` the call of `available` has no defined result: it would index its set by -1.
  pub available-close : (s : Sock os.World) → ((close os >> available os) s).0 ≡ undefined
  unfolding close available
  available-close s = ground arith

  -- `connect` to a Unix path of one to 108 path characters removes the path before it connects to
  -- it. Where every connect to the path after its removal fails, as it does on a file system
  -- (ENOENT), `connect` throws std::runtime_error and leaves the object closed.
  pub connect_unix-Fails :
      (path : Bytes)
      → path ≢ []
      → InClass path_class path
      → length path ≤ sun_path_size
      → ((fd : ℤ) (w : os.World)
          → is_neg (os.connect_to fd (unix_at (named_path os.net path)) (os.unlink path w)).0
            ≡ true)
      → (s : Sock os.World) → Fails (connect os (codes "unix://" ++ path) s)
  unfolding guarded
  connect_unix-Fails path ne al fits enoent s =
      let call = os.connect_to s.fd (unix_at (named_path os.net path)) (os.unlink path s.world) in
      rw ((bind-connect_unix os path s ne al).1, (leb_iff (length path) sun_path_size).1 fits)
        (guard-Fails os call.0 (codes "Socket UDS couldn't connect: ") (record s { world = call.1 })
          (enoent s.fd s.world))
