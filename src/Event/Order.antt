-- ===== src/Event/Order.antt =====
-- src/picotm_event.c: in which order the two loops visit the events.
use picotm.Prelude.{
  ℕ, zero, suc, ◌≡◌, refl, sym, ◌∙◌, true, inl, inr, List, [], ◌∷◌, ◌++◌, length, get_elem?,
  reverse, reverse-cons, Bool-cases,
}
use picotm.Module.{Run, failed}
use picotm.Event.{Event, events_foreach1, call_at, rev_foreach_from, events_rev_foreach1}

module _ {S D : Type 0} (arg : D) (call : Event → D → Run S → Run S) where
  -- After an error no event is visited.
  pub foreach-failed :
      (es : List Event) (r : Run S) → failed r ≡ true → events_foreach1 es arg call r ≡ r
  unfolding events_foreach1
  foreach-failed [] r h = refl
  foreach-failed (e ∷ es) r h = rw h

  pub foreach-append :
      (xs ys : List Event) (r : Run S)
      → events_foreach1 (xs ++ ys) arg call r
        ≡ events_foreach1 ys arg call (events_foreach1 xs arg call r)
  unfolding events_foreach1
  foreach-append [] ys r = refl
  foreach-append (x ∷ xs) ys r = elim (Bool-cases (failed r)) [
    | inl bad ↦ rw bad (sym (foreach-failed ys r bad))
    | inr good ↦ rw good (foreach-append xs ys (call x arg r))
  ]

  -- The first event is the last that is visited.
  rev_foreach_from-cons :
      (n : ℕ) (x : Event) (es : List Event) (r : Run S)
      → rev_foreach_from (suc n) (x ∷ es) arg call r
        ≡ events_foreach1 (x ∷ []) arg call (rev_foreach_from n es arg call r)
  unfolding rev_foreach_from events_foreach1
  rev_foreach_from-cons zero x es r = refl
  rev_foreach_from-cons (suc n) x es r = elim (Bool-cases (failed r)) [
    | inl bad ↦ rw (bad, bad)
    | inr good ↦ rw good (rev_foreach_from-cons n x es (call_at (get_elem? es n) arg call r))
  ]

  -- The reverse loop is the forward loop over the reversed events.
  pub rev_foreach-foreach :
      (es : List Event) (r : Run S)
      → events_rev_foreach1 es arg call r ≡ events_foreach1 (reverse es) arg call r
  unfolding events_rev_foreach1
  rev_foreach-foreach [] r = unfold rev_foreach_from events_foreach1 in refl
  rev_foreach-foreach (x ∷ es) r =
      rev_foreach_from-cons (length es) x es r
      ∙ (rw (rev_foreach-foreach es r, reverse-cons) (sym (foreach-append (reverse es) (x ∷ []) r)))
