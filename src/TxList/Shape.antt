-- ===== src/TxList/Shape.antt =====
-- modules/txlib/src/txlist_entry.c: the lists that the pointers of a store stand for.
use picotm.Prelude.{
  ℕ, ◌≡◌, refl, sym, ◌∙◌, subst, arith, Bool, true, false, true≢false, inl, inr, ◌||◌, Bool-cases,
  if_true, if_false, List, [], ◌∷◌, ◌==◌, if◌then◌else◌,
}
use picotm.TxList.{Store}

abbrev pub contains : ℕ → List ℕ → Bool
contains a [] = false
contains a (x ∷ xs) = (a == x) || contains a xs

abbrev pub IsDistinct : List ℕ → Type 0
IsDistinct [] = Unit {0}
IsDistinct (x ∷ xs) = (contains x xs ≡ false) × IsDistinct xs

-- From `a`, the pointers lead through `xs` to `b`, and back.
abbrev pub Seg : Store → ℕ → List ℕ → ℕ → Type 0
Seg s a [] b = (s.next a ≡ b) × (s.prev b ≡ a)
Seg s a (x ∷ xs) b = (s.next a ≡ x) × (s.prev x ≡ a) × Seg s x xs b

-- The list of the head, around which the pointers lead.
pub record IsList (s : Store) (head : ℕ) (xs : List ℕ) : Type 0 where
  pub seg : Seg s head xs head
  pub distinct : IsDistinct xs
  pub out : contains head xs ≡ false

-- The list with `e` before `position`, at the end when the list does not have it.
abbrev pub insert_before : ℕ → ℕ → List ℕ → List ℕ
insert_before e position [] = e ∷ []
insert_before e position (x ∷ xs) =
    if position == x then e ∷ x ∷ xs else x ∷ insert_before e position xs

abbrev pub without : ℕ → List ℕ → List ℕ
without e [] = []
without e (x ∷ xs) = if e == x then xs else x ∷ without e xs

abbrev pub last_from : ℕ → List ℕ → ℕ
last_from a [] = a
last_from a (x ∷ xs) = last_from x xs

abbrev pub first_of : List ℕ → ℕ → ℕ
first_of [] b = b
first_of (x ∷ xs) b = x

pub or_false : (a b : Bool) → (a || b) ≡ false → (a ≡ false) × (b ≡ false)
or_false true b h = (h, absurd (true≢false h))
or_false false b h = (refl, h)

pub or_true : (a b : Bool) → a ≡ true → (a || b) ≡ true
or_true true b h = refl
or_true false b h = absurd (true≢false (sym h))

pub contains-insert_before :
    (a e position : ℕ) (xs : List ℕ)
    → contains a (insert_before e position xs) ≡ ((a == e) || contains a xs)
contains-insert_before a e position [] = ground arith
contains-insert_before a e position (x ∷ xs) =
    ground (arith, contains-insert_before a e position xs)

pub contains-without :
    (a e : ℕ) (xs : List ℕ) → contains a xs ≡ false → contains a (without e xs) ≡ false
contains-without a e [] h = ground arith
contains-without a e (x ∷ xs) h = ground (arith, contains-without a e xs)

pub contains-without_ne :
    (a e : ℕ) (xs : List ℕ) → (a == e) ≡ false → contains a (without e xs) ≡ contains a xs
contains-without_ne a e [] h = refl
contains-without_ne a e (x ∷ xs) h = ground (arith, contains-without_ne a e xs h)

pub insert_before-IsDistinct :
    (e position : ℕ) (xs : List ℕ)
    → IsDistinct xs
    → contains e xs ≡ false
    → IsDistinct (insert_before e position xs)
insert_before-IsDistinct e position [] d h = ground arith
insert_before-IsDistinct e position (x ∷ xs) d h =
    let (apart, others) = or_false (e == x) (contains e xs) h in
    elim (Bool-cases (position == x)) [
      | inl first ↦ subst IsDistinct (sym (if_true (position == x) _ _ first)) (h, d)
      | inr later ↦ subst IsDistinct (sym (if_false (position == x) _ _ later)) (
        contains-insert_before x e position xs ∙ ground (arith, d.0),
        insert_before-IsDistinct e position xs d.1 others,
      )
    ]

pub without-IsDistinct : (e : ℕ) (xs : List ℕ) → IsDistinct xs → IsDistinct (without e xs)
without-IsDistinct e [] d = d
without-IsDistinct e (x ∷ xs) d = elim (Bool-cases (e == x)) [
  | inl first ↦ subst IsDistinct (sym (if_true (e == x) _ _ first)) d.1
  | inr later ↦
      subst IsDistinct (sym (if_false (e == x) _ _ later))
        (contains-without x e xs d.0, without-IsDistinct e xs d.1)
]
