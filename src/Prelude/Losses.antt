-- ===== src/Prelude/Losses.antt =====
-- Sequences that lost some of their elements.
use mathlib.Core.List.{List, [], ◌∷◌, ◌++◌}

-- `xs` is `ys` without some of its elements: nothing added, changed, doubled or swapped.
pub data Thinned {A : Type 0} : List A → List A → Type 0 where
  done : Thinned [] []
  lost : {y : A} {xs ys : List A} → Thinned xs ys → Thinned xs (y ∷ ys)
  kept : {x : A} {xs ys : List A} → Thinned xs ys → Thinned (x ∷ xs) (x ∷ ys)

pub Thinned-lost_last :
    {A : Type 0} {xs ys : List A} (m : A) → Thinned xs ys → Thinned xs (ys ++ m ∷ [])
Thinned-lost_last m done = lost done
Thinned-lost_last m (lost t) = lost (Thinned-lost_last m t)
Thinned-lost_last m (kept t) = kept (Thinned-lost_last m t)

pub Thinned-kept_last :
    {A : Type 0} {xs ys : List A} (m : A) → Thinned xs ys → Thinned (xs ++ m ∷ []) (ys ++ m ∷ [])
Thinned-kept_last m done = kept done
Thinned-kept_last m (lost t) = lost (Thinned-kept_last m t)
Thinned-kept_last m (kept t) = kept (Thinned-kept_last m t)

Thinned-self : {A : Type 0} (xs : List A) → Thinned xs xs
Thinned-self [] = done
Thinned-self (x ∷ xs) = kept (Thinned-self xs)

Thinned-one_less : {A : Type 0} (xs ys : List A) (m : A) → Thinned (xs ++ ys) (xs ++ m ∷ ys)
Thinned-one_less [] ys m = lost (Thinned-self ys)
Thinned-one_less (x ∷ xs) ys m = kept (Thinned-one_less xs ys m)

Thinned-trans : {A : Type 0} {xs ys zs : List A} → Thinned xs ys → Thinned ys zs → Thinned xs zs
Thinned-trans t done = t
Thinned-trans t (lost u) = lost (Thinned-trans t u)
Thinned-trans (lost t) (kept u) = lost (Thinned-trans t u)
Thinned-trans (kept t) (kept u) = kept (Thinned-trans t u)

-- One more element is lost.
pub Thinned-less :
    {A : Type 0} (xs ys : List A) {zs : List A} (m : A)
    → Thinned (xs ++ m ∷ ys) zs
    → Thinned (xs ++ ys) zs
Thinned-less xs ys m t = Thinned-trans (Thinned-one_less xs ys m) t
