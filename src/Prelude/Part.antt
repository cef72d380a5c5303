-- ===== src/Prelude/Part.antt =====
-- Lists of numbers that are part of another list, in order.
use picotm.Prelude.{ℕ, List, [], ◌∷◌, ◌++◌}

-- The first list is part of the second, in order.
pub data Part : List ℕ → List ℕ → Type 0 where
  empty : {ys : List ℕ} → Part [] ys
  skip : {xs ys : List ℕ} (y : ℕ) → Part xs ys → Part xs (y ∷ ys)
  keep : {xs ys : List ℕ} (x : ℕ) → Part xs ys → Part (x ∷ xs) (x ∷ ys)

Part-last : (x : ℕ) (ys : List ℕ) → Part (x ∷ []) (ys ++ x ∷ [])
Part-last x [] = keep x empty
Part-last x (y ∷ ys) = skip y (Part-last x ys)

pub Part-snoc : {xs ys : List ℕ} (x : ℕ) → Part xs ys → Part (xs ++ x ∷ []) (ys ++ x ∷ [])
Part-snoc {xs} {ys} x empty = Part-last x ys
Part-snoc x (skip y p) = skip y (Part-snoc x p)
Part-snoc x (keep a p) = keep a (Part-snoc x p)

pub Part-tail : {x : ℕ} {xs ys : List ℕ} → Part (x ∷ xs) ys → Part xs ys
Part-tail (skip y p) = skip y (Part-tail p)
Part-tail (keep x p) = skip x p

pub Part-init : (xs : List ℕ) (x : ℕ) (ys : List ℕ) → Part (xs ++ x ∷ []) ys → Part xs ys
Part-init [] x ys p = empty
Part-init (a ∷ xs) x [] p = elim p [ ]
Part-init (a ∷ xs) x (y ∷ ys) (skip _ p) = skip y (Part-init (a ∷ xs) x ys p)
Part-init (a ∷ xs) x (b ∷ ys) (keep _ p) = keep b (Part-init xs x ys p)
