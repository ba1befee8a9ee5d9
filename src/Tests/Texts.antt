-- ===== src/Tests/Texts.antt =====
-- The theorems on messages and on texts of fields, on small messages.
use marko_cpp.Prelude.{codes, [], ◌∷◌, ◌≡◌, refl}
use marko_cpp.Outcome.{returned}
use marko_cpp.Message.{Subscription, subscribe, pack, unpack}
use marko_cpp.Message.Memory.{subscription, unpack-pack}
use marko_cpp.Ascii
use marko_cpp.Ascii.{Ascii, new_ascii, getlines}
use marko_cpp.Ascii.Rejoin.{chomp, pack-unpack}
use marko_cpp.Ascii.Split.{split_on, less_last_empty, unpack-split_on}

abbrev camera : Subscription
camera = record { topic = 3; status = subscribe }

unpack-pack_example : unpack subscription (9 ∷ 9 ∷ []) (pack subscription camera) ≡ returned camera
unpack-pack_example = unpack-pack subscription (9 ∷ 9 ∷ []) camera refl

abbrev bar : Ascii
bar = record { toks = []; sep = b'|' }

reads_four :
    (Ascii.unpack (new_ascii b'|') (codes "bob|tom|alice|george")).1
    ≡ codes "bob" ∷ codes "tom" ∷ codes "alice" ∷ codes "george" ∷ []
unfolding Ascii.unpack getlines new_ascii
reads_four = refl

unpack-split_on_example : Ascii.unpack bar (codes "bob||tom|") ≡ (
  record { toks = codes "bob" ∷ [] ∷ codes "tom" ∷ []; sep = b'|' },
  codes "bob" ∷ [] ∷ codes "tom" ∷ [],
)
unfolding split_on less_last_empty
unpack-split_on_example = unpack-split_on bar (codes "bob||tom|")

pack-unpack_example :
    Ascii.pack bar (Ascii.unpack bar (codes "bob||tom|")).1 ≡ returned (codes "bob||tom")
unfolding chomp
pack-unpack_example = pack-unpack bar (codes "bob||tom|") (λ e. cc)
