-- ===== src/Ascii.antt =====
-- src/include/marko/ascii.hpp: the class Ascii, texts of fields with a separator between them.
pub mod RoundTrip
pub mod Split
pub mod Rejoin
use marko_cpp.Prelude.{
  ℕ, Bytes, codes, List, [], ◌∷◌, ◌++◌, Bool, true, false, ◌==◌, if◌then◌else◌, ◌≡◌, refl,
}
use marko_cpp.Outcome.{Outcome, returned, undefined}

-- The object: the tokens of the last `unpack`, which hands out a reference to them, and `sep`.
pub record Ascii : Type 0 where
  pub toks : List Bytes
  pub sep : ℕ

unfoldable pub new_ascii : ℕ → Ascii
new_ascii separator = record { toks = []; sep = separator }

-- At the end of the text a token counts if it has a character.
abbrev pub last_token : Bytes → List Bytes → List Bytes
last_token [] toks = toks
last_token (c ∷ cur) toks = toks ++ (c ∷ cur) ∷ []

-- `while (getline(ss, token, sep)) toks.push_back(token)`: `cur` is the token that is being read.
unfoldable pub getlines : ℕ → Bytes → List Bytes → Bytes → List Bytes
getlines sep cur toks [] = last_token cur toks
getlines sep cur toks (c ∷ s) = elim (c == sep) [
  | true ↦ getlines sep [] (toks ++ cur ∷ []) s
  | false ↦ getlines sep (cur ++ c ∷ []) toks s
]

-- The tokens are the result and stay in the object.
unfoldable pub unpack : Ascii → Bytes → Ascii × List Bytes
unpack a str = let toks = getlines a.sep [] [] str in (record a { toks = toks }, toks)

unfoldable pub append_rest : ℕ → Bytes → List Bytes → Bytes
append_rest sep out [] = out
append_rest sep out (v ∷ vs) = append_rest sep (out ++ sep ∷ v) vs

-- `v[0]` of an empty vector has no meaning.
unfoldable pub pack : Ascii → List Bytes → Outcome Bytes
unfolding append_rest
pack a [] = undefined
pack a (v ∷ vs) = returned (append_rest a.sep v vs)
