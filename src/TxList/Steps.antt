-- ===== src/TxList/Steps.antt =====
-- modules/txlib/src/txlist_tx.c: what one operation makes of the list and of the log.
use picotm.Prelude.{
  ℕ, ◌<◌, ◌≡◌, refl, sym, ◌∙◌, ap, subst, Bool, false, inl, inr, some, List, [], ◌∷◌, length,
  if◌then◌else◌, ◌>>=◌, Bool-cases, if_true, if_false,
}
use picotm.Error.{Error, is_set}
use picotm.Rwlock.Wait.{Attempt}
use picotm.TxList.{Store}
use picotm.TxList.Transaction.{
  ListEvent, ListTx, list_failed, error_of_list, with_list_error, in_list_state, exec_list_clear,
  append_round, append_rounds, append_list_events, try_wrlock_list, exec_locked,
  txlist_tx_exec_clear,
}
use picotm.TxList.Walk.{list_size_lem}
use picotm.TxList.Moves.{
  undo_stores, undo_stores-snoc, try_wrlock_list-state, IsGood, Outcome, Moves, front-Moves,
  if-Outcome,
}

module _ (mine : ℕ → Bool) (head : ℕ) (start : Store) where
  module _ (lock : ℕ) (wait : Attempt → Attempt) (resize : Error → Error)
      (append_event : ℕ → Error → Error)
      (appends : (n : ℕ) (e : Error) → is_set e ≡ false → is_set (append_event n e) ≡ false) where
    round-IsGood :
        (init : ListTx → ListEvent × ListTx) (xs ys : List ℕ) (self : ListTx)
        → Moves mine head start init xs ys
        → list_failed self ≡ false
        → IsGood mine head start self xs
        → (list_failed (append_round resize append_event (init self)) ≡ false)
          × IsGood mine head start (append_round resize append_event (init self)) ys
    unfolding append_round list_failed
    round-IsGood init xs ys self moves fine good =
        let (ev, s, e, tidy, undone) = moves self good in
        let more = appends (length self.events) (error_of_list self) fine in
        rw (e, fine, more)
          (
            more,
            (record {
              tidy = tidy;
              same_head = good.same_head;
              leads_back =
                  undo_stores-snoc self.events ev s
                  ∙ ap (undo_stores self.events) undone
                  ∙ good.leads_back;
            }),
          )

    failed-IsGood :
        (self : ListTx) (e : Error) (xs : List ℕ)
        → IsGood mine head start self xs
        → IsGood mine head start (with_list_error self e) xs
    failed-IsGood self e xs good = record {
      tidy = good.tidy;
      same_head = good.same_head;
      leads_back = good.leads_back;
    }

    -- The rounds of one operation.
    append_one :
        (init : ListTx → ListEvent × ListTx) (xs ys : List ℕ) (self : ListTx)
        → Moves mine head start init xs ys
        → IsGood mine head start self xs
        → Outcome mine head start xs ys (append_list_events resize append_event 1 init self)
    unfolding append_list_events append_rounds
    append_one init xs ys self moves good =
        let resized = with_list_error self (resize (error_of_list self)) in
        let grown = failed-IsGood self (resize (error_of_list self)) xs good in
        elim (Bool-cases (list_failed resized)) [
          | inl bad ↦
              subst (Outcome mine head start xs ys) (sym (if_true (list_failed resized) _ _ bad))
                (inr (bad, grown))
          | inr fine ↦
              let (fine2, good2) = round-IsGood init xs ys resized moves fine grown in
              subst (Outcome mine head start xs ys)
                (sym (
                  if_false (list_failed resized) _ _ fine
                  ∙ if_false (list_failed (append_round resize append_event (init resized))) _ _
                      fine2))
                (inl (fine2, good2))
        ]

    -- The rounds that take the entries off one by one.
    clear_rounds :
        (xs : List ℕ) (self : ListTx)
        → list_failed self ≡ false
        → IsGood mine head start self xs
        → (list_failed (append_rounds resize append_event (length xs) exec_list_clear self) ≡ false)
          × IsGood mine head start
              (append_rounds resize append_event (length xs) exec_list_clear self)
              []
    unfolding append_rounds
    clear_rounds [] self fine good = (fine, good)
    clear_rounds (x ∷ xs) self fine good =
        let (fine2, good2) =
          round-IsGood exec_list_clear (x ∷ xs) xs self (front-Moves mine head start x xs) fine
            good in
        let rest =
          clear_rounds xs (append_round resize append_event (exec_list_clear self)) fine2 good2 in
        subst (λ q. (list_failed q ≡ false) × IsGood mine head start q [])
          (sym (
            if_false (list_failed (append_round resize append_event (exec_list_clear self))) _ _
              fine2))
          rest

    append_clear :
        (xs : List ℕ) (self : ListTx)
        → IsGood mine head start self xs
        → Outcome mine head start xs []
            (append_list_events resize append_event (length xs) exec_list_clear self)
    unfolding append_list_events
    append_clear xs self good =
        let resized = with_list_error self (resize (error_of_list self)) in
        let grown = failed-IsGood self (resize (error_of_list self)) xs good in
        elim (Bool-cases (list_failed resized)) [
          | inl bad ↦
              subst (Outcome mine head start xs []) (sym (if_true (list_failed resized) _ _ bad))
                (inr (bad, grown))
          | inr fine ↦
              subst (Outcome mine head start xs []) (sym (if_false (list_failed resized) _ _ fine))
                (inl (clear_rounds xs resized fine grown))
        ]

    pub exec_locked-Outcome :
        (init : ListTx → ListEvent × ListTx) (xs ys : List ℕ) (self : ListTx)
        → Moves mine head start init xs ys
        → IsGood mine head start self xs
        → (q : ListTx) × (exec_locked lock wait resize append_event init self ≡ some q)
          × Outcome mine head start xs ys q
    unfolding try_wrlock_list list_failed append_list_events
    exec_locked-Outcome init xs ys self moves good =
        let (s, e) = try_wrlock_list-state lock wait self in
        let locked = in_list_state self s in
        let good2 : IsGood mine head start locked xs = record {
          tidy = good.tidy;
          same_head = good.same_head;
          leads_back = good.leads_back;
        } in
        (
          _,
          ap
              (λ o. o >>= λ l.
                some (if list_failed l then l else append_list_events resize append_event 1 init l))
              e,
          if-Outcome mine head start xs ys (list_failed locked) locked _ refl good2
              (append_one init xs ys locked moves good2),
        )

    pub exec_clear-Outcome :
        (fuel : ℕ) (xs : List ℕ) (self : ListTx)
        → length xs < fuel
        → IsGood mine head start self xs
        → (q : ListTx) × (txlist_tx_exec_clear lock wait resize append_event fuel self ≡ some q)
          × Outcome mine head start xs [] q
    unfolding txlist_tx_exec_clear
    exec_clear-Outcome fuel xs self enough good =
        let (s, e) = try_wrlock_list-state lock wait self in
        let locked = in_list_state self s in
        let good2 : IsGood mine head start locked xs = record {
          tidy = good.tidy;
          same_head = good.same_head;
          leads_back = good.leads_back;
        } in
        elim (Bool-cases (list_failed locked)) [
          | inl bad ↦ (locked, rw (e, bad) refl, inr (bad, good2))
          | inr fine ↦ (
            _,
            rw
                (
                  e,
                  fine,
                  good.same_head,
                  list_size_lem fuel head self.store xs good.tidy.list enough,
                )
                refl,
            append_clear xs locked good2,
          )
        ]
