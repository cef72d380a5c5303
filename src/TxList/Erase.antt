-- ===== src/TxList/Erase.antt =====
-- modules/txlib/src/txlist_entry.c: what txlist_entry_erase() makes of a list.
use picotm.Prelude.{
  ℕ, ◌≡◌, ◌≢◌, sym, ◌∙◌, ap, arith, true, false, List, [], ◌∷◌, ◌==◌, inl, inr, subst, true≢false,
  Bool-cases, if_true, if_false, ==→eq,
}
use picotm.TxList.{Store, entry_erase}
use picotm.TxList.Shape.{Seg, contains, without, IsDistinct}
use picotm.TxList.Links.{Prec, Succ, erase-next, erase-prev, outside}

module _ (e : ℕ) (s : Store) (prec : Prec s e) (succ : Succ s e) where
  -- An edge that does not lead to the entry or from it stays.
  erase_edge :
      (a b : ℕ)
      → s.next a ≡ b
      → s.prev b ≡ a
      → a ≢ e
      → b ≢ e
      → ((entry_erase e s).next a ≡ b) × ((entry_erase e s).prev b ≡ a)
  erase_edge a b n p ae be =
      let apart = λ (q : a ≡ s.prev e). be (sym n ∙ ap s.next q ∙ prec) in
      let apart2 = λ (q : b ≡ s.next e). ae (sym p ∙ ap s.prev q ∙ succ) in
      (rw (erase-next e a s) (ground arith), rw (erase-prev e b s) (ground arith))

  erase_frame :
      (a b : ℕ) (ys : List ℕ)
      → Seg s a ys b
      → a ≢ e
      → contains e ys ≡ false
      → b ≢ e
      → Seg (entry_erase e s) a ys b
  erase_frame a b [] g ae ey be = erase_edge a b g.0 g.1 ae be
  erase_frame a b (y ∷ ys) (n, p, g) ae ey be =
      let (ye, ey2) = outside e y ys ey in
      let (n2, p2) = erase_edge a y n p ae ye in (n2, p2, erase_frame y b ys g ye ey2 be)

  -- The edge over the entry.
  erase_here :
      (a b : ℕ)
      → s.prev e ≡ a
      → s.next e ≡ b
      → a ≢ e
      → b ≢ e
      → ((entry_erase e s).next a ≡ b) × ((entry_erase e s).prev b ≡ a)
  erase_here a b p n ae be =
      (rw (erase-next e a s) (ground arith), rw (erase-prev e b s) (ground arith))

  erase_first :
      (a b : ℕ) (ys : List ℕ)
      → s.prev e ≡ a
      → Seg s e ys b
      → a ≢ e
      → contains e ys ≡ false
      → b ≢ e
      → Seg (entry_erase e s) a ys b
  erase_first a b [] p (n, q) ae ey be = erase_here a b p n ae be
  erase_first a b (y ∷ ys) p (n, q, g) ae ey be =
      let (ye, ey2) = outside e y ys ey in
      let (n2, p2) = erase_here a y p n ae ye in (n2, p2, erase_frame y b ys g ye ey2 be)

  pub without-Seg :
      (a b : ℕ) (xs : List ℕ)
      → Seg s a xs b
      → a ≢ e
      → b ≢ e
      → contains e xs ≡ true
      → IsDistinct xs
      → Seg (entry_erase e s) a (without e xs) b
  without-Seg a b [] g ae be h d = absurd (true≢false (sym h))
  without-Seg a b (x ∷ xs) (n, p, g) ae be h (dx, d) = elim (Bool-cases (e == x)) [
    | inl first ↦
        let q = ==→eq e x first in
        subst (λ l. Seg (entry_erase e s) a l b) (sym (if_true (e == x) _ _ first))
          (erase_first a b xs (ap s.prev q ∙ p) (subst (λ t. Seg s t xs b) (sym q) g) ae
            (subst (λ t. contains t xs ≡ false) (sym q) dx) be)
    | inr later ↦
        let xe = λ (q : x ≡ e). ne_self e x later (sym q) in
        let (n2, p2) = erase_edge a x n p ae xe in
        subst (λ l. Seg (entry_erase e s) a l b) (sym (if_false (e == x) _ _ later))
          (n2, p2, without-Seg x b xs g xe be (ground arith) d)
  ]
    where
      ne_self : (a b : ℕ) → (a == b) ≡ false → a ≢ b
      ne_self a b h = ground arith
