-- ===== src/TxList/Links.antt =====
-- modules/txlib/src/txlist_entry.c: what txlist_entry_insert() and txlist_entry_erase() make of a list.
use picotm.Prelude.{
  ℕ, ◌≡◌, ◌≢◌, sym, ◌∙◌, ap, fun_ext, arith, true, false, List, [], ◌∷◌, ◌==◌, if◌then◌else◌, ap₂,
  ◌⊎◌, inl, inr, subst, true≢false, Bool-cases, if_true, if_false, ==→eq,
}
use picotm.TxList.{Store, entry_insert, entry_erase}
use picotm.TxList.Shape.{Seg, contains, insert_before, or_false, IsDistinct}

-- The pointers lead from the entry before `a` to `a`.
abbrev pub Prec : Store → ℕ → Type 0
Prec s a = s.next (s.prev a) ≡ a

abbrev pub Succ : Store → ℕ → Type 0
Succ s a = s.prev (s.next a) ≡ a

Store-ext :
    (a b : Store) → ((x : ℕ) → a.next x ≡ b.next x) → ((x : ℕ) → a.prev x ≡ b.prev x) → a ≡ b
Store-ext a b f g =
    ap₂ (λ (n p : ℕ → ℕ). record { next = n; prev = p }) (fun_ext λ x. f x) (fun_ext λ x. g x)

pub insert-next :
    (e position x : ℕ) (s : Store)
    → position ≢ e
    → (entry_insert e position s).next x
      ≡ (if x == s.prev position then e else if x == e then position else s.next x)
unfolding entry_insert
insert-next e position x s h = ground arith

pub insert-prev :
    (e position x : ℕ) (s : Store)
    → (entry_insert e position s).prev x
      ≡ (if x == position then e else if x == e then s.prev position else s.prev x)
unfolding entry_insert
insert-prev e position x s = ground arith

pub erase-next :
    (e x : ℕ) (s : Store)
    → (entry_erase e s).next x
      ≡ (if x == e then 0 else if x == s.prev e then s.next e else s.next x)
unfolding entry_erase
erase-next e x s = ground arith

pub erase-prev :
    (e x : ℕ) (s : Store)
    → (entry_erase e s).prev x
      ≡ (if x == e then 0 else if x == s.next e then s.prev e else s.prev x)
unfolding entry_erase
erase-prev e x s = ground arith

-- To erase the entry that has been inserted restores the store.
pub erase-insert :
    (e position : ℕ) (s : Store)
    → s.next e ≡ 0
    → s.prev e ≡ 0
    → position ≢ e
    → s.prev position ≢ e
    → Prec s position
    → entry_erase e (entry_insert e position s) ≡ s
unfolding entry_erase entry_insert
erase-insert e position s no_next no_prev h k c =
    Store-ext _ s (λ x. ground arith) (λ x. ground arith)

pub insert-erase :
    (e : ℕ) (s : Store)
    → s.next e ≢ e
    → s.prev e ≢ e
    → Prec s e
    → Succ s e
    → entry_insert e (s.next e) (entry_erase e s) ≡ s
unfolding entry_erase entry_insert
insert-erase e s h k p q = Store-ext _ s (λ x. ground arith) (λ x. ground arith)

pub outside :
    (e x : ℕ) (xs : List ℕ) → contains e (x ∷ xs) ≡ false → (x ≢ e) × (contains e xs ≡ false)
outside e x xs h = let (p, q) = or_false (e == x) (contains e xs) h in (ground arith, q)

pub still_in :
    (a x b : ℕ) (xs : List ℕ)
    → (a == x) ≡ false
    → (contains a (x ∷ xs) ≡ true) ⊎ (a ≡ b)
    → (contains a xs ≡ true) ⊎ (a ≡ b)
still_in a x b xs h d = ground arith

module _ (e position : ℕ) (s : Store) (ne : position ≢ e) (prec : Prec s position) where
  -- An edge that does not lead to the position or from the entry stays.
  insert_edge :
      (a b : ℕ)
      → s.next a ≡ b
      → s.prev b ≡ a
      → a ≢ e
      → b ≢ e
      → b ≢ position
      → ((entry_insert e position s).next a ≡ b) × ((entry_insert e position s).prev b ≡ a)
  insert_edge a b n p ae be bp =
      let apart = λ (q : a ≡ s.prev position). bp (sym n ∙ ap s.next q ∙ prec) in
      (
        rw (insert-next e position a s ne) (ground arith),
        rw (insert-prev e position b s) (ground arith),
      )

  insert_frame :
      (a b : ℕ) (ys : List ℕ)
      → Seg s a ys b
      → a ≢ e
      → contains e ys ≡ false
      → contains position ys ≡ false
      → b ≢ e
      → b ≢ position
      → Seg (entry_insert e position s) a ys b
  insert_frame a b [] g ae ey py be bp = insert_edge a b g.0 g.1 ae be bp
  insert_frame a b (y ∷ ys) (n, p, g) ae ey py be bp =
      let (ye, ey2) = outside e y ys ey in
      let (yp, py2) = outside position y ys py in
      let (n2, p2) = insert_edge a y n p ae ye yp in
      (n2, p2, insert_frame y b ys g ye ey2 py2 be bp)

  -- The edges from the entry before the position, over the new entry, to the position.
  insert_here :
      (a : ℕ) → s.prev position ≡ a → a ≢ e → Seg (entry_insert e position s) a (e ∷ []) position
  insert_here a p ae =
      let apart = λ (q : e ≡ s.prev position). ae (sym (q ∙ p)) in
      (
        rw (insert-next e position a s ne) (ground arith),
        rw (insert-prev e position e s) (ground arith),
        (
          rw (insert-next e position e s ne) (ground arith),
          rw (insert-prev e position position s) (ground arith),
        ),
      )

  pub insert_before-Seg :
      (a b : ℕ) (xs : List ℕ)
      → Seg s a xs b
      → (contains position xs ≡ true) ⊎ (position ≡ b)
      → a ≢ e
      → b ≢ e
      → contains e xs ≡ false
      → contains b xs ≡ false
      → IsDistinct xs
      → Seg (entry_insert e position s) a (insert_before e position xs) b
  insert_before-Seg a b [] (n, p) (inl h) ae be ex bx d = absurd (true≢false (sym h))
  insert_before-Seg a b [] (n, p) (inr h) ae be ex bx d =
      subst (λ t. Seg (entry_insert e position s) a (e ∷ []) t) h
        (insert_here a (ap s.prev h ∙ p) ae)
  insert_before-Seg a b (x ∷ xs) (n, p, g) h ae be ex bx (dx, d) =
      let (xe, ex2) = outside e x xs ex in
      let (xb, bx2) = outside b x xs bx in
      elim (Bool-cases (position == x)) [
        | inl first ↦
            let q = ==→eq position x first in
            subst (λ l. Seg (entry_insert e position s) a l b)
              (sym (if_true (position == x) _ _ first))
              (let (n1, p1, (n2, p2)) = insert_here a (ap s.prev q ∙ p) ae in
                (
                  n1,
                  p1,
                  (
                    n2 ∙ q,
                    subst (λ t. (entry_insert e position s).prev t ≡ e) q p2,
                    insert_frame x b xs g xe ex2 (subst (λ t. contains t xs ≡ false) (sym q) dx) be
                        (λ r. xb (sym (r ∙ q))),
                  ),
                ))
        | inr later ↦
            let (n2, p2) = insert_edge a x n p ae xe (ground arith) in
            subst (λ l. Seg (entry_insert e position s) a l b)
              (sym (if_false (position == x) _ _ later))
              (
                n2,
                p2,
                insert_before-Seg x b xs g (still_in position x b xs later h) xe be ex2 bx2 d,
              )
      ]

-- The entries of a list, each with the pointers to it.
pub Seg-Prec :
    (s : Store) (a b x : ℕ) (xs : List ℕ)
    → Seg s a xs b
    → (contains x xs ≡ true) ⊎ (x ≡ b)
    → Prec s x
Seg-Prec s a b x [] (n, p) (inl h) = absurd (true≢false (sym h))
Seg-Prec s a b x [] (n, p) (inr h) = subst (Prec s) (sym h) (ap s.next p ∙ n)
Seg-Prec s a b x (y ∷ xs) (n, p, g) h = elim (Bool-cases (x == y)) [
  | inl first ↦ subst (Prec s) (sym (==→eq x y first)) (ap s.next p ∙ n)
  | inr later ↦ Seg-Prec s y b x xs g (still_in x y b xs later h)
]

pub Seg-Succ :
    (s : Store) (a b x : ℕ) (xs : List ℕ)
    → Seg s a xs b
    → (contains x xs ≡ true) ⊎ (x ≡ a)
    → Succ s x
Seg-Succ s a b x [] (n, p) (inl h) = absurd (true≢false (sym h))
Seg-Succ s a b x [] (n, p) (inr h) = subst (Succ s) (sym h) (ap s.prev n ∙ p)
Seg-Succ s a b x (y ∷ xs) (n, p, g) h = elim (Bool-cases (x == a)) [
  | inl first ↦ subst (Succ s) (sym (==→eq x a first)) (ap s.prev n ∙ p)
  | inr later ↦ Seg-Succ s y b x xs g (ground arith)
]
