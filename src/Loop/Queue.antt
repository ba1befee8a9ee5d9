-- ===== src/Loop/Queue.antt =====
-- The loop of Subscriber and Reply where each round takes the first item of a queue and adds one
-- to what came out.
use marko_cpp.Prelude.{
  length-map, ◌∙◌, sym, ℕ, ◌+◌, ◌<◌, List, [], ◌∷◌, ◌++◌, map, append-nil, append_assoc, All,
  length, length-append, ltb, Bool, true, ℤ, ◌≡◌, arith,
}
use marko_cpp.Outcome.{returned}
use marko_cpp.Machine.{Sock, M}
use marko_cpp.Loop.{loop, Rounds, none_yet, round, loop-Rounds}

-- An object with this descriptor.
abbrev pub at_world : {W : Type 0} → ℤ → W → Sock W
at_world fd w = record { fd = fd; world = w }

module _ {W A B : Type 0} (fd : ℤ) (once : M W (Unit {0})) (queue : W → List A) (out : W → List B)
    (Good : A → Type 0) (g : A → B) where
  -- A round in a world where a good item is the first.
  abbrev pub Takes : Type 0
  Takes =
      (x : A) (rest : List A) (w : W)
      → queue w ≡ x ∷ rest
      → Good x
      → (v : W) × (once (at_world fd w) ≡ (returned tt, at_world fd v))
        × (queue v ≡ rest)
        × (out v ≡ out w ++ g x ∷ [])

  module _ (takes : Takes) (is_set : W → Bool) (limit : ℕ)
      (event : (w : W) → is_set w ≡ ltb (length (out w)) limit) where
    Rounds-queue :
        (xs rest : List A) (w : W)
        → queue w ≡ xs ++ rest
        → All Good xs
        → length (out w) + length xs ≡ limit
        → (t : W) × Rounds is_set once (at_world fd w) (length xs) (at_world fd t)
          × (out t ≡ out w ++ map g xs)
          × (queue t ≡ rest)
    Rounds-queue [] rest w e good l = (w, none_yet (at_world fd w), sym (append-nil (out w)), e)
    Rounds-queue (x ∷ xs) rest w e good l =
        let (v, ran, left, more) = takes x (xs ++ rest) w e good.0 in
        let (t, rounds, all_out, last) =
          Rounds-queue xs rest v left good.1
            (rw (more, length-append (out w) (g x ∷ [])) (omega (arith, l))) in
        (
          t,
          round (at_world fd v) (event w ∙ ground (arith, l)) ran rounds,
          all_out ∙ rw more (append_assoc (out w) (g x ∷ []) (map g xs)),
          last,
        )

    -- The loop under an event that is set until so many items came out as the queue reaches: it
    -- ends, and the items came out in their order.
    pub loop-queue :
        (xs rest : List A) (w : W)
        → queue w ≡ xs ++ rest
        → All Good xs
        → length (out w) + length xs ≡ limit
        → (fuel : ℕ) → length xs < fuel
        → (t : W) × (loop is_set once fuel (at_world fd w) ≡ (returned true, at_world fd t))
          × (out t ≡ out w ++ map g xs)
          × (queue t ≡ rest)
    loop-queue xs rest w e good l fuel enough =
        let (t, rounds, all_out, last) = Rounds-queue xs rest w e good l in
        (
          t,
          loop-Rounds is_set once fuel rounds
              (event t
                ∙ rw (all_out, length-append (out w) (map g xs), length-map g xs)
                    (ground (arith, l)))
              enough,
          all_out,
          last,
        )
