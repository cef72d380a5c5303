-- ===== src/TxList/Rollback.antt =====
-- modules/txlib/src/txlist_tx.c: a transaction on a list that commits or rolls back.
use picotm.Prelude.{
  ℕ, suc, ◌+◌, ◌<◌, ◌≤◌, ◌≡◌, refl, ◌∙◌, ap, subst, arith, Bool, true, false, ◌⊎◌, inl, inr, some,
  none-ne-some, some-injective, List, [], ◌∷◌, length, bind-some, length-append, ◌||◌, ◌==◌,
  length-take,
}
use picotm.Error.{Error, is_set}
use picotm.Rwlock.Wait.{Attempt}
use picotm.TxList.{Store}
use picotm.TxList.Shape.{IsList, contains, insert_before, without}
use picotm.TxList.Transaction.{ListTx, list_failed}
use picotm.TxList.Session.{
  ListOp, insert_at, erase_entry, pop_front, pop_back, push_front, push_back, clear, is_new,
  run_list_op, run_list_ops, exec_list_ops, undo_list,
}
use picotm.TxList.Tidy.{IsTidy}
use picotm.TxList.Moves.{IsGood, undo_list-store}
use picotm.TxList.Operations.{exec_list_op-Outcome, guard_true}

length-insert_before :
    (e position : ℕ) (xs : List ℕ) → length (insert_before e position xs) ≡ suc (length xs)
length-insert_before e position [] = refl
length-insert_before e position (x ∷ xs) = ground (arith, length-insert_before e position xs)

length-without : (e : ℕ) (xs : List ℕ) → length (without e xs) ≤ length xs
length-without e [] = omega arith
length-without e (x ∷ xs) = ground (arith, length-without e xs)

-- An operation makes a list one entry longer at most.
length-run_list_op :
    (mine : ℕ → Bool) (head : ℕ) (op : ListOp) (xs ys : List ℕ)
    → run_list_op mine head op xs ≡ some ys
    → length ys ≤ suc (length xs)
length-run_list_op mine head (insert_at e position) xs ys h =
    let (new, h2) = guard_true (is_new mine head e xs) _ ys h in
    let (at, h3) = guard_true (contains position xs || (position == head)) _ ys h2 in
    omega (arith, ap length (some-injective _ _ h3), length-insert_before e position xs)
length-run_list_op mine head (erase_entry e) xs ys h =
    let (c, h2) = guard_true (contains e xs) _ ys h in
    omega (arith, ap length (some-injective _ _ h2), length-without e xs)
length-run_list_op mine head pop_front [] ys h = absurd (none-ne-some _ h)
length-run_list_op mine head pop_front (x ∷ xs) ys h =
    omega (arith, ap length (some-injective _ _ h))
length-run_list_op mine head pop_back [] ys h = absurd (none-ne-some _ h)
length-run_list_op mine head pop_back (x ∷ xs) ys h =
    omega (arith, ap length (some-injective _ _ h), length-take (length xs) (x ∷ xs))
length-run_list_op mine head (push_front e) xs ys h =
    let (new, h2) = guard_true (is_new mine head e xs) _ ys h in
    omega (arith, ap length (some-injective _ _ h2))
length-run_list_op mine head (push_back e) xs ys h =
    let (new, h2) = guard_true (is_new mine head e xs) _ ys h in
    omega (arith, ap length (some-injective _ _ h2), length-append xs (e ∷ []))
length-run_list_op mine head clear xs ys h = omega (arith, ap length (some-injective _ _ h))

module _ (mine : ℕ → Bool) (head : ℕ) (start : Store) (fuel lock : ℕ) (wait : Attempt → Attempt)
    (resize : Error → Error) (append_event : ℕ → Error → Error)
    (appends : (n : ℕ) (e : Error) → is_set e ≡ false → is_set (append_event n e) ≡ false) where
  exec_list_ops-IsGood :
      (ops : List ListOp) (xs ys : List ℕ) (self : ListTx)
      → run_list_ops mine head ops xs ≡ some ys
      → length xs + length ops < fuel
      → list_failed self ≡ false
      → IsGood mine head start self xs
      → (q : ListTx) × (exec_list_ops fuel lock wait resize append_event ops self ≡ some q)
        × (((list_failed q ≡ false) × IsGood mine head start q ys)
            ⊎ ((list_failed q ≡ true) × (zs : List ℕ) × IsGood mine head start q zs))
  exec_list_ops-IsGood [] xs ys self h enough fine good =
      (self, refl, inl (fine, subst (IsGood mine head start self) (some-injective xs ys h) good))
  exec_list_ops-IsGood (op ∷ ops) xs ys self h enough fine good =
      let (next, h1, h2) =
        bind-some (run_list_op mine head op xs) (run_list_ops mine head ops) ys h in
      let shorter = length-run_list_op mine head op xs next h1 in
      let (q, e, o) =
        exec_list_op-Outcome mine head start fuel lock wait resize append_event appends op xs next
          self h1 (omega arith) good in
      elim o [
        | inl (fine2, good2) ↦
            let (r, f, p) = exec_list_ops-IsGood ops next ys q h2 (omega arith) fine2 good2 in
            (r, rw (e, fine2) f, p)
        | inr (bad, good2) ↦ (q, rw (e, bad) refl, inr (bad, xs, good2))
      ]

-- A transaction that starts on a list, with operations that the list can do, always gets through them or to
-- its first error. Without an error, the pointers of the store then stand for the list that the same
-- operations make of a plain list. The hypotheses: the store stands for the list `xs`, in which the entries
-- of `mine` that are not in it have no neighbours, the head is the transaction's, there is no event and no
-- error at the start, the fuel is more than the entries and the operations together, and the append of an
-- event does not fail. To acquire the lock and to grow the log may fail at any time.
pub exec_list_ops-IsList :
    (mine : ℕ → Bool) (fuel lock : ℕ) (wait : Attempt → Attempt) (resize : Error → Error)
    (append_event : ℕ → Error → Error) (ops : List ListOp) (xs final : List ℕ) (self : ListTx)
    → ((n : ℕ) (e : Error) → is_set e ≡ false → is_set (append_event n e) ≡ false)
    → run_list_ops mine self.head ops xs ≡ some final
    → length xs + length ops < fuel
    → list_failed self ≡ false
    → self.events ≡ []
    → IsTidy mine self.head self.store xs
    → (q : ListTx) × (exec_list_ops fuel lock wait resize append_event ops self ≡ some q)
      × ((list_failed q ≡ true) ⊎ IsList q.store self.head final)
exec_list_ops-IsList mine fuel lock wait resize append_event ops xs final self appends h enough fine
      no_event tidy =
    let (q, e, o) =
      exec_list_ops-IsGood mine self.head self.store fuel lock wait resize append_event appends ops
        xs final self h enough fine
        (record { tidy = tidy; same_head = refl; leads_back = rw no_event refl }) in
    elim o [
      | inl (fine2, good) ↦ (q, e, inr good.tidy.list)
      | inr (bad, zs, good) ↦ (q, e, inl bad)
    ]

-- A transaction on a list, under the hypotheses of `exec_list_ops-IsList`, always gets through its
-- operations or to its first error, and the rollback, which undoes the events from the last to the first,
-- then leaves every pointer of every entry as it was at the start.
pub undo_list-exec_list_ops :
    (mine : ℕ → Bool) (fuel lock : ℕ) (wait : Attempt → Attempt) (resize : Error → Error)
    (append_event : ℕ → Error → Error) (ops : List ListOp) (xs final : List ℕ) (self : ListTx)
    → ((n : ℕ) (e : Error) → is_set e ≡ false → is_set (append_event n e) ≡ false)
    → run_list_ops mine self.head ops xs ≡ some final
    → length xs + length ops < fuel
    → list_failed self ≡ false
    → self.events ≡ []
    → IsTidy mine self.head self.store xs
    → (q : ListTx) × (exec_list_ops fuel lock wait resize append_event ops self ≡ some q)
      × ((undo_list q.events q).store ≡ self.store)
undo_list-exec_list_ops mine fuel lock wait resize append_event ops xs final self appends h enough
      fine no_event tidy =
    let (q, e, o) =
      exec_list_ops-IsGood mine self.head self.store fuel lock wait resize append_event appends ops
        xs final self h enough fine
        (record { tidy = tidy; same_head = refl; leads_back = rw no_event refl }) in
    elim o [
      | inl (fine2, good) ↦ (q, e, undo_list-store q.events q ∙ good.leads_back)
      | inr (bad, zs, good) ↦ (q, e, undo_list-store q.events q ∙ good.leads_back)
    ]
