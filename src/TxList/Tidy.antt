-- ===== src/TxList/Tidy.antt =====
-- modules/txlib/src/txlist_entry.c: a list with the entries that are not in it, before and after a change.
use picotm.Prelude.{
  ℕ, ◌≡◌, ◌≢◌, refl, sym, ◌∙◌, ap, arith, Bool, true, false, true≢false, ◌⊎◌, inl, inr, List, [],
  ◌∷◌, ◌==◌, Bool-cases, ==→eq, eq→==,
}
use picotm.TxList.{Store, entry_insert, entry_erase}
use picotm.TxList.Shape.{
  Seg, IsList, contains, insert_before, without, or_false, contains-insert_before,
  contains-without_ne, IsDistinct, insert_before-IsDistinct,
}
use picotm.TxList.Links.{
  insert-next, insert-prev, erase-next, erase-prev, insert_before-Seg, Seg-Prec, Seg-Succ,
  erase-insert, insert-erase, still_in,
}
use picotm.TxList.Walk.{erase-IsList}

-- The list of the head, with every entry of `mine` that is not in the list without neighbours. The head is
-- not one of `mine`.
pub record IsTidy (mine : ℕ → Bool) (head : ℕ) (s : Store) (xs : List ℕ) : Type 0 where
  pub list : IsList s head xs
  pub single : (x : ℕ) → mine x ≡ true → contains x xs ≡ false → (s.next x ≡ 0) × (s.prev x ≡ 0)
  pub head_out : mine head ≡ false

-- The neighbours of an entry.
Seg-prev_in :
    (s : Store) (a b x : ℕ) (xs : List ℕ)
    → Seg s a xs b
    → (contains x xs ≡ true) ⊎ (x ≡ b)
    → (contains (s.prev x) xs ≡ true) ⊎ (s.prev x ≡ a)
Seg-prev_in s a b x [] (n, p) (inl h) = absurd (true≢false (sym h))
Seg-prev_in s a b x [] (n, p) (inr h) = inr (ap s.prev h ∙ p)
Seg-prev_in s a b x (y ∷ xs) (n, p, g) h = elim (Bool-cases (x == y)) [
  | inl first ↦ inr (ap s.prev (==→eq x y first) ∙ p)
  | inr later ↦ elim (Seg-prev_in s y b x xs g (still_in x y b xs later h)) [
    | inl i ↦ inl (ground arith)
    | inr i ↦ inl (ground arith)
  ]
]

Seg-next_in :
    (s : Store) (a b x : ℕ) (xs : List ℕ)
    → Seg s a xs b
    → (contains x xs ≡ true) ⊎ (x ≡ a)
    → (contains (s.next x) xs ≡ true) ⊎ (s.next x ≡ b)
Seg-next_in s a b x [] (n, p) (inl h) = absurd (true≢false (sym h))
Seg-next_in s a b x [] (n, p) (inr h) = inr (ap s.next h ∙ n)
Seg-next_in s a b x (y ∷ xs) (n, p, g) h = elim (Bool-cases (x == a)) [
  | inl first ↦ inl (ap (λ t. contains t (y ∷ xs)) (ap s.next (==→eq x a first) ∙ n) ∙ ground arith)
  | inr later ↦ elim (Seg-next_in s y b x xs g (ground arith)) [
    | inl i ↦ inl (ground arith)
    | inr i ↦ inr i
  ]
]

-- No entry of a list is its own neighbour.
Seg-next_ne :
    (s : Store) (a b x : ℕ) (xs : List ℕ)
    → Seg s a xs b
    → IsDistinct xs
    → contains x xs ≡ true
    → b ≢ x
    → s.next x ≢ x
Seg-next_ne s a b x [] g d h bx = absurd (true≢false (sym h))
Seg-next_ne s a b x (y ∷ []) (n, p, g) d h bx =
    λ q. bx (sym g.0 ∙ ap s.next (sym (ground arith)) ∙ q)
Seg-next_ne s a b x (y ∷ z ∷ xs) (n, p, g) (dy, d) h bx = elim (Bool-cases (x == y)) [
  | inl first ↦ λ q.
      let xy = ==→eq x y first in
      let (yz, others) = or_false (y == z) (contains y xs) dy in
      absurd (true≢false (sym (eq→== y z (sym xy ∙ sym q ∙ ap s.next xy ∙ g.0)) ∙ yz))
  | inr later ↦ Seg-next_ne s y b x (z ∷ xs) g d (ground arith) bx
]

Seg-prev_ne :
    (s : Store) (a b x : ℕ) (xs : List ℕ)
    → Seg s a xs b
    → IsDistinct xs
    → contains x xs ≡ true
    → a ≢ x
    → s.prev x ≢ x
Seg-prev_ne s a b x [] g d h ax = absurd (true≢false (sym h))
Seg-prev_ne s a b x (y ∷ xs) (n, p, g) (dy, d) h ax = elim (Bool-cases (x == y)) [
  | inl first ↦ λ q. ax (sym p ∙ ap s.prev (sym (==→eq x y first)) ∙ q)
  | inr later ↦ Seg-prev_ne s y b x xs g d (ground arith) (ground arith)
]

module _ (mine : ℕ → Bool) (head : ℕ) (s : Store) (xs : List ℕ) (tidy : IsTidy mine head s xs) where
  -- An entry of `mine` out of the list is apart from what is in it.
  apart_in :
      (x y : ℕ)
      → mine x ≡ true
      → contains x xs ≡ false
      → (contains y xs ≡ true) ⊎ (y ≡ head)
      → x ≢ y
  apart_in x y m c (inl h) q = true≢false (sym h ∙ ap (λ t. contains t xs) (sym q) ∙ c)
  apart_in x y m c (inr h) q = true≢false (sym m ∙ ap mine (q ∙ h) ∙ tidy.head_out)

  module _ (e position : ℕ) (m : mine e ≡ true) (c : contains e xs ≡ false)
      (at : (contains position xs ≡ true) ⊎ (position ≡ head)) where
    pub insert-IsTidy : IsTidy mine head (entry_insert e position s) (insert_before e position xs)
    insert-IsTidy =
        let ne = λ (q : position ≡ e). apart_in e position m c at (sym q) in
        let ne_head = apart_in e head m c (inr refl) in
        let w = tidy.list in
        record {
          list = record {
            seg =
                insert_before-Seg e position s ne (Seg-Prec s head head position xs w.seg at) head
                  head xs w.seg at (λ q. ne_head (sym q)) (λ q. ne_head (sym q)) c w.out w.distinct;
            distinct = insert_before-IsDistinct e position xs w.distinct c;
            out = contains-insert_before head e position xs ∙ ground arith;
          };
          single = λ x mx cx.
              let (xe, out) =
                or_false (x == e) (contains x xs)
                  (sym (contains-insert_before x e position xs) ∙ cx) in
              let before =
                apart_in x (s.prev position) mx out
                  (Seg-prev_in s head head position xs w.seg at) in
              let there = apart_in x position mx out at in
              let (n, p) = tidy.single x mx out in
              (
                rw (insert-next e position x s ne) (ground arith),
                rw (insert-prev e position x s) (ground arith),
              );
          head_out = tidy.head_out;
        }

    pub erase-insert-IsTidy : entry_erase e (entry_insert e position s) ≡ s
    erase-insert-IsTidy =
        let w = tidy.list in
        erase-insert e position s (tidy.single e m c).0 (tidy.single e m c).1
          (λ q. apart_in e position m c at (sym q))
          (λ q.
            apart_in e (s.prev position) m c (Seg-prev_in s head head position xs w.seg at) (sym q))
          (Seg-Prec s head head position xs w.seg at)

  module _ (e : ℕ) (c : contains e xs ≡ true) where
    pub erase-IsTidy : IsTidy mine head (entry_erase e s) (without e xs)
    erase-IsTidy = record {
      list = erase-IsList e head s xs tidy.list c;
      single = λ x mx cx. elim (Bool-cases (x == e)) [
        | inl self ↦ (rw (erase-next e x s, self) refl, rw (erase-prev e x s, self) refl)
        | inr other ↦
            let out = sym (contains-without_ne x e xs other) ∙ cx in
            let before =
              apart_in x (s.prev e) mx out (Seg-prev_in s head head e xs tidy.list.seg (inl c)) in
            let after =
              apart_in x (s.next e) mx out (Seg-next_in s head head e xs tidy.list.seg (inl c)) in
            let (n, p) = tidy.single x mx out in
            (
              rw (erase-next e x s, other) (ground arith),
              rw (erase-prev e x s, other) (ground arith),
            )
      ];
      head_out = tidy.head_out;
    }

    pub insert-erase-IsTidy : entry_insert e (s.next e) (entry_erase e s) ≡ s
    insert-erase-IsTidy =
        let w = tidy.list in
        let head_ne =
          λ (q : head ≡ e). true≢false (sym c ∙ ap (λ t. contains t xs) (sym q) ∙ w.out) in
        insert-erase e s (Seg-next_ne s head head e xs w.seg w.distinct c head_ne)
          (Seg-prev_ne s head head e xs w.seg w.distinct c head_ne)
          (Seg-Prec s head head e xs w.seg (inl c)) (Seg-Succ s head head e xs w.seg (inl c))
