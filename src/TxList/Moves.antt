-- ===== src/TxList/Moves.antt =====
-- modules/txlib/src/txlist_tx.c: what the operations do to the list, and how their events undo it.
use picotm.Prelude.{
  ℕ, ◌≡◌, refl, ◌∙◌, ap, subst, Bool, true, false, ◌⊎◌, inr, some, List, [], ◌∷◌, ◌++◌,
  if◌then◌else◌, ◌>>=◌, if_true, eq→==, ◌==◌,
}
use picotm.Rwlock.Wait.{Attempt}
use picotm.Rwlock.State.{Rwstate, rwstate_try_wrlock}
use picotm.Rwlock.Accounting.{rwstate_try_wrlock_lem}
use picotm.TxList.{Store, entry_insert, entry_erase, list_front}
use picotm.TxList.Shape.{contains, insert_before, without, or_true}
use picotm.TxList.Transaction.{
  ListEvent, list_insert_event, list_erase_event, ListTx, list_failed, in_list_state,
  exec_list_insert, exec_list_erase, exec_list_clear, try_wrlock_list, list_event_undo,
  txlist_tx_undo_insert, txlist_tx_undo_erase,
}
use picotm.TxList.Session.{undo_list}
use picotm.TxList.Tidy.{
  IsTidy, insert-IsTidy, erase-insert-IsTidy, erase-IsTidy, insert-erase-IsTidy,
}

abbrev pub undo_store : ListEvent → Store → Store
undo_store (list_insert_event e) s = entry_erase e s
undo_store (list_erase_event e position) s = entry_insert e position s

abbrev pub undo_stores : List ListEvent → Store → Store
undo_stores [] s = s
undo_stores (ev ∷ evs) s = undo_store ev (undo_stores evs s)

pub undo_stores-snoc :
    (evs : List ListEvent) (ev : ListEvent) (s : Store)
    → undo_stores (evs ++ ev ∷ []) s ≡ undo_stores evs (undo_store ev s)
undo_stores-snoc [] ev s = refl
undo_stores-snoc (e ∷ evs) ev s = ap (undo_store e) (undo_stores-snoc evs ev s)

list_event_undo-store :
    (ev : ListEvent) (self : ListTx) → (list_event_undo ev self).store ≡ undo_store ev self.store
unfolding list_event_undo txlist_tx_undo_insert txlist_tx_undo_erase
list_event_undo-store (list_insert_event e) self = refl
list_event_undo-store (list_erase_event e position) self = refl

pub undo_list-store :
    (evs : List ListEvent) (self : ListTx) → (undo_list evs self).store ≡ undo_stores evs self.store
undo_list-store [] self = refl
undo_list-store (ev ∷ evs) self =
    list_event_undo-store ev (undo_list evs self) ∙ ap (undo_store ev) (undo_list-store evs self)

-- To lock for writing comes back, and changes the state of the lock only.
pub try_wrlock_list-state :
    (lock : ℕ) (wait : Attempt → Attempt) (self : ListTx)
    → (s : Rwstate) × (try_wrlock_list lock wait self ≡ some (in_list_state self s))
unfolding try_wrlock_list
try_wrlock_list-state lock wait self =
    let (s, e) = locked self.state in (s, ap (λ o. o >>= λ t. some (in_list_state self t)) e)
  where
    locked : (st : Rwstate) → (s : Rwstate) × (rwstate_try_wrlock lock wait st ≡ some s)
    locked st = (_, rwstate_try_wrlock_lem lock wait st.status st.attempt)

module _ (mine : ℕ → Bool) (head : ℕ) (start : Store) where
  -- The transaction on the list of `head`, with a log that leads back to `start`.
  pub record IsGood (self : ListTx) (xs : List ℕ) : Type 0 where
    pub tidy : IsTidy mine head self.store xs
    pub same_head : self.head ≡ head
    pub leads_back : undo_stores self.events self.store ≡ start

  -- After an operation: the new list without an error, or the old one with it.
  abbrev pub Outcome : List ℕ → List ℕ → ListTx → Type 0
  Outcome xs ys q = ((list_failed q ≡ false) × IsGood q ys) ⊎ ((list_failed q ≡ true) × IsGood q xs)

  -- Of an `init` of txlib_tx_append_events3(): it makes `ys` of `xs`, with the event that undoes it.
  abbrev pub Moves : (ListTx → ListEvent × ListTx) → List ℕ → List ℕ → Type 0
  Moves init xs ys =
      (self : ListTx)
      → IsGood self xs
      → (ev : ListEvent) × (s : Store) × (init self ≡ (ev, record self { store = s }))
        × IsTidy mine head s ys
        × (undo_store ev s ≡ self.store)

  pub insert-Moves :
      (e position : ℕ) (xs : List ℕ)
      → mine e ≡ true
      → contains e xs ≡ false
      → (contains position xs ≡ true) ⊎ (position ≡ head)
      → Moves (exec_list_insert e position) xs (insert_before e position xs)
  insert-Moves e position xs m c at self good = (
    list_insert_event e,
    _,
    refl,
    insert-IsTidy mine head self.store xs good.tidy e position m c at,
    erase-insert-IsTidy mine head self.store xs good.tidy e position m c at,
  )

  pub erase-Moves :
      (e : ℕ) (xs : List ℕ) → contains e xs ≡ true → Moves (exec_list_erase e) xs (without e xs)
  erase-Moves e xs c self good = (
    list_erase_event e (self.store.next e),
    _,
    refl,
    erase-IsTidy mine head self.store xs good.tidy e c,
    insert-erase-IsTidy mine head self.store xs good.tidy e c,
  )

  pub same_Moves :
      (init init2 : ListTx → ListEvent × ListTx) (xs ys zs : List ℕ)
      → ((self : ListTx) → IsGood self xs → init2 self ≡ init self)
      → ys ≡ zs
      → Moves init xs ys
      → Moves init2 xs zs
  same_Moves init init2 xs ys zs same h moves self good =
      let (ev, s, e, tidy, undone) = moves self good in
      (ev, s, same self good ∙ e, subst (IsTidy mine head s) h tidy, undone)

  -- What heads the list goes.
  pub front-Moves : (x : ℕ) (xs : List ℕ) → Moves exec_list_clear (x ∷ xs) xs
  unfolding list_front
  front-Moves x xs =
      let same = eq→== x x refl in
      same_Moves (exec_list_erase x) exec_list_clear (x ∷ xs) (without x (x ∷ xs)) xs
        (λ self good.
          ap (λ t. exec_list_erase t self)
            (ap self.store.next good.same_head ∙ good.tidy.list.seg.0))
        (if_true (x == x) xs _ same)
        (erase-Moves x (x ∷ xs) (or_true (x == x) (contains x xs) same))

  pub if-Outcome :
      (xs ys : List ℕ) (failed : Bool) (self q : ListTx)
      → list_failed self ≡ failed
      → IsGood self xs
      → Outcome xs ys q
      → Outcome xs ys (if failed then self else q)
  if-Outcome xs ys true self q f good o = inr (f, good)
  if-Outcome xs ys false self q f good o = o
