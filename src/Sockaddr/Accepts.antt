-- ===== src/Sockaddr/Accepts.antt =====
-- Which texts `filter` of src/include/marko/sockaddr.hpp takes for an address at all.
use marko_cpp.Prelude.{Bytes, codes, List, [], ◌∷◌, ◌++◌, append-nil, ◌≡◌, ◌≢◌, refl, ap, ◌∙◌}
use marko_cpp.Outcome.{returned}
use marko_cpp.Regex.{Smatch, regex_search, proto, path_class}
use marko_cpp.Regex.Spec.{OneOf}
use marko_cpp.Regex.Search.{regex_search_sound}
use marko_cpp.Regex.Runs.{InClass}
use marko_cpp.Sockaddr.{Inet, error_addr, proto_match, filter}

-- A protocol word, `://` and a body in the path characters, somewhere in the text.
abbrev pub HasAddress : Bytes → Type 0
HasAddress address =
    (before : Bytes) × (after : Bytes) × (w : Bytes) × (body : Bytes) × OneOf w
      (codes "udp" ∷ codes "tcp" ∷ codes "unix" ∷ [])
    × (body ≢ [])
    × InClass path_class body
    × (address ≡ before ++ ((w ++ (codes "://" ++ body)) ++ after))

proto_match_nil : (net : Inet) → proto_match net [] ≡ returned (error_addr net)
unfolding proto_match
proto_match_nil net = refl

HasAddress-found :
    (address u : Bytes) (gs : List Bytes) → regex_search address proto ≡ u ∷ gs → HasAddress address
HasAddress-found address u gs h =
    let (
      before,
      after,
      split,
      (w, v, hs, one, eu, eg, (v2, ev, (b, v3, hs2, (ne, al), ev2, eg2, (ev3, eg3)))),
    ) =
      regex_search_sound address proto u gs h in
    let spelled : u ≡ w ++ (codes "://" ++ b) =
      eu
      ∙ ap (λ t. w ++ t)
          (ev ∙ ap (λ t. codes "://" ++ t) (ev2 ∙ (ap (λ t. b ++ t) ev3 ∙ append-nil b))) in
    (before, after, w, b, one, ne, al, split ∙ ap (λ t. before ++ (t ++ after)) spelled)

-- A text that does not hold an address of the known protocols gives AF_ERROR, without an
-- exception.
pub filter_rejects :
    (net : Inet) (address : Bytes)
    → ¬ HasAddress address
    → filter net address ≡ returned (error_addr net)
unfolding filter
filter_rejects net address none_there = go (regex_search address proto) refl
  where
    go :
        (m : Smatch)
        → regex_search address proto ≡ m
        → proto_match net (regex_search address proto) ≡ returned (error_addr net)
    go [] e = rw e (proto_match_nil net)
    go (u ∷ gs) e = absurd (none_there (HasAddress-found address u gs e))
