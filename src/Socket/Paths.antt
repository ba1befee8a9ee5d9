-- ===== src/Socket/Paths.antt =====
-- What `bind` and `connect` of Socket (src/include/marko/socket.hpp) do with an address of the unix
-- form.
use marko_cpp.Prelude.{
  Bytes, codes, [], ◌++◌, Bool-cases, leb, if◌then◌else◌, overwrite, length, ◌≡◌, ◌≢◌, inl, inr,
  refl,
}
use marko_cpp.Outcome.{undefined}
use marko_cpp.Regex.{path_class}
use marko_cpp.Regex.Runs.{InClass, regex_search-proto_whole}
use marko_cpp.Sockaddr.{Inet, fresh, UnixAddr, af_unix, sun_path_size}
use marko_cpp.Sockaddr.Paths.{unix_sockaddr_whole}
use marko_cpp.Os.{Os, unix_at}
use marko_cpp.Machine.{Sock}
use marko_cpp.Socket.{guarded, set_unix, set_matched, bind, connect}

-- The address that `unix://path` names.
abbrev pub named_path : Inet → Bytes → UnixAddr
named_path net path = record { sun_family = af_unix; sun_path = overwrite path (fresh net) }

-- `bind` and `connect` to `unix://path`, for a path that is not empty and in the characters that
-- the expression knows: a path of more than 108 bytes is written past its array, which has no defined
-- result; for any other the path is unlinked, and then the one call of the system is made, on the
-- address named, and its result guarded.
pub bind-connect_unix :
    (os : Os) (path : Bytes) (s : Sock os.World)
    → path ≢ []
    → InClass path_class path
    → let unlinked = record s { world = os.unlink path s.world } in
      (bind os (codes "unix://" ++ path) s ≡ (
        if leb (length path) sun_path_size
        then guarded os
            (λ fd. os.bind_to fd (unix_at (named_path os.net path)))
            (codes "Socket UDS couldn't bind: ")
            unlinked
        else (undefined, s)))
      × (connect os (codes "unix://" ++ path) s ≡ (
          if leb (length path) sun_path_size
          then guarded os
              (λ fd. os.connect_to fd (unix_at (named_path os.net path)))
              (codes "Socket UDS couldn't connect: ")
              unlinked
          else (undefined, s)))
unfolding bind connect set_matched set_unix
bind-connect_unix os path s ne al =
    let matched = regex_search-proto_whole (codes "unix") path (inr (inr (inl refl))) ne al in
    elim (Bool-cases (leb (length path) sun_path_size)) [
      | inl e ↦ rw (matched, unix_sockaddr_whole os.net path ne al, e) (refl, refl)
      | inr e ↦ rw (matched, unix_sockaddr_whole os.net path ne al, e) (refl, refl)
    ]
