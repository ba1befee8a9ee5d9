-- ===== src/RequestReply/Ledger.antt =====
-- The requests that a requester sent against the replies that it got (src/include/marko/request_reply.hpp),
-- as lists of messages that carry the number of their requester.
use marko_cpp.Prelude.{
  Thinned, Thinned-lost_last, Thinned-kept_last, Thinned-less, ap, ℕ, ◌==◌, Bytes, List, [], ◌∷◌,
  ◌++◌, append-nil, append_assoc, map, Bool-cases, if◌then◌else◌, ◌≡◌, ◌≢◌, refl, ◌⊎◌, inl, inr,
  arith,
}

-- The messages of one requester.
unfoldable pub by : ℕ → List (ℕ × Bytes) → List Bytes
by i [] = []
by i ((j, m) ∷ xs) = let rest = by i xs in if i == j then m ∷ rest else rest

pub by-append : (i : ℕ) (xs ys : List (ℕ × Bytes)) → by i (xs ++ ys) ≡ by i xs ++ by i ys
unfolding by
by-append i [] ys = refl
by-append i ((j, m) ∷ xs) ys = elim (Bool-cases (i == j)) [
  | inl e ↦ rw (e, by-append i xs ys)
  | inr e ↦ rw (e, by-append i xs ys)
]

by_own : (i : ℕ) (m : Bytes) (xs : List (ℕ × Bytes)) → by i ((i, m) ∷ xs) ≡ m ∷ by i xs
unfolding by
by_own i m xs = ground arith

by_other : (i j : ℕ) (m : Bytes) (xs : List (ℕ × Bytes)) → i ≢ j → by i ((j, m) ∷ xs) ≡ by i xs
unfolding by
by_other i j m xs ne = ground arith

pub same_or_other : (j i : ℕ) → (j ≡ i) ⊎ (j ≢ i)
same_or_other j i = elim (Bool-cases (j == i)) [
  | inl e ↦ inl (ground arith)
  | inr e ↦ inr (λ h. ground arith)
]

by_last : (i : ℕ) (m : Bytes) (xs : List (ℕ × Bytes)) → by i (xs ++ (i, m) ∷ []) ≡ by i xs ++ m ∷ []
by_last i m xs = rw (by-append i xs ((i, m) ∷ []), by_own i m []) (unfold by in refl)

by_last_other :
    (j i : ℕ) (m : Bytes) (xs : List (ℕ × Bytes)) → j ≢ i → by j (xs ++ (i, m) ∷ []) ≡ by j xs
by_last_other j i m xs ne =
    rw (by-append j xs ((i, m) ∷ []), by_other j i m [] ne) (unfold by in append-nil (by j xs))

map-concat :
    (f : Bytes → Bytes) (xs : List Bytes) (m : Bytes) → map f (xs ++ m ∷ []) ≡ map f xs ++ f m ∷ []
map-concat f [] m = refl
map-concat f (x ∷ xs) m = ap (λ ys. f x ∷ ys) (map-concat f xs m)

module _ (f : Bytes → Bytes) where
  -- What requester `i` got, behind it what waits for it, and behind that the replies to what waits of
  -- it at the replier: that is what `f` makes of the requester's own requests in their order, less
  -- what was lost.
  pub record Own (i : ℕ) (back : List (ℕ × Bytes)) (inbox : List Bytes)
      (requests sent : List (ℕ × Bytes)) : Type 0 where
    pub thinned : Thinned ((by i back ++ inbox) ++ map f (by i requests)) (map f (by i sent))

  module _ {back : List (ℕ × Bytes)} {inbox : List Bytes} {requests sent : List (ℕ × Bytes)} where
    pub Own-sent :
        (j i : ℕ) (m : Bytes)
        → Own j back inbox requests sent
        → Own j back inbox (requests ++ (i, m) ∷ []) (sent ++ (i, m) ∷ [])
    Own-sent j i m own = elim (same_or_other j i) [
      | inr ne ↦ record {
        thinned = rw (by_last_other j i m requests ne, by_last_other j i m sent ne) own.thinned;
      }
      | inl e ↦ record {
        thinned =
            rw
              (
                ← e,
                by_last j m requests,
                by_last j m sent,
                map-concat f (by j requests) m,
                map-concat f (by j sent) m,
                ← append_assoc (by j back ++ inbox) (map f (by j requests)) (f m ∷ []),
              )
              (Thinned-kept_last (f m) own.thinned);
      }
    ]

    pub Own-lost_request :
        (j i : ℕ) (m : Bytes)
        → Own j back inbox requests sent
        → Own j back inbox requests (sent ++ (i, m) ∷ [])
    Own-lost_request j i m own = elim (same_or_other j i) [
      | inr ne ↦ record { thinned = rw (by_last_other j i m sent ne) own.thinned }
      | inl e ↦ record {
        thinned =
            rw (← e, by_last j m sent, map-concat f (by j sent) m)
              (Thinned-lost_last (f m) own.thinned);
      }
    ]

    pub Own-replied :
        (i : ℕ) (m : Bytes)
        → Own i back inbox ((i, m) ∷ requests) sent
        → Own i back (inbox ++ f m ∷ []) requests sent
    Own-replied i m own = record {
      thinned =
          rw
            (
              ← append_assoc (by i back) inbox (f m ∷ []),
              append_assoc (by i back ++ inbox) (f m ∷ []) (map f (by i requests)),
            )
            (rw (by_own i m requests) at own.thinned);
    }

    pub Own-lost_reply :
        (i : ℕ) (m : Bytes)
        → Own i back inbox ((i, m) ∷ requests) sent
        → Own i back inbox requests sent
    Own-lost_reply i m own = record {
      thinned = Thinned-less (by i back ++ inbox) _ (f m) (rw (by_own i m requests) at own.thinned);
    }

    pub Own-other :
        (j i : ℕ) (m : Bytes)
        → j ≢ i
        → Own j back inbox ((i, m) ∷ requests) sent
        → Own j back inbox requests sent
    Own-other j i m ne own = record { thinned = rw (by_other j i m requests ne) at own.thinned }

    pub Own-got :
        (i : ℕ) (m : Bytes)
        → Own i back (m ∷ inbox) requests sent
        → Own i (back ++ (i, m) ∷ []) inbox requests sent
    Own-got i m own = record {
      thinned = rw (by_last i m back, append_assoc (by i back) (m ∷ []) inbox) own.thinned;
    }

    pub Own-got_other :
        (j i : ℕ) (m : Bytes)
        → j ≢ i
        → Own j back inbox requests sent
        → Own j (back ++ (i, m) ∷ []) inbox requests sent
    Own-got_other j i m ne own = record { thinned = rw (by_last_other j i m back ne) own.thinned }
