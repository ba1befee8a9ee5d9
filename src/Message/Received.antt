-- ===== src/Message/Received.antt =====
-- A packed value (src/include/marko/message.hpp) as what a receive call of the sockets gives.
use marko_cpp.Prelude.{◌<◌, length, pos, ◌≡◌, subst, arith}
use marko_cpp.SocketUdp.{received}
use marko_cpp.Message.{Layout, pack}
use marko_cpp.Message.Memory.{pack_lem}
use marko_cpp.RequestReply.Exchange.{received_whole}

pub length-pack : {T : Type 0} (l : Layout T) (d : T) → length (pack l d) ≡ l.size
length-pack l d = rw (pack_lem l d) (l.length-bytes d)

-- A packed value that arrives whole is received unchanged.
pub received_packed :
    {T : Type 0} (l : Layout T) (d : T)
    → 0 < l.size
    → received l.size (pos (length (pack l d))) (pack l d) ≡ pack l d
received_packed l d h =
    subst (λ n. received n (pos (length (pack l d))) (pack l d) ≡ pack l d) (length-pack l d)
      (received_whole (pack l d) (omega (arith, length-pack l d)))
