-- ===== src/TxList/Operations.antt =====
-- modules/txlib/src/txlist_tx.c: each operation of a transaction on a list, next to that on a plain list.
use picotm.Prelude.{
  ℕ, ◌<◌, ◌≡◌, refl, sym, ◌∙◌, ap, subst, arith, Bool, true, false, true≢false, ◌⊎◌, inl, inr,
  Option, some, none, none-ne-some, some-injective, List, [], ◌∷◌, ◌++◌, length, take,
  if◌then◌else◌, if_true, if_false, eq→==, ne→==, ◌||◌, ◌==◌, ◌&&◌, not,
}
use picotm.Error.{Error, is_set}
use picotm.Rwlock.Wait.{Attempt}
use picotm.TxList.{Store, list_front, list_back}
use picotm.TxList.Shape.{
  IsDistinct, contains, insert_before, without, last_from, first_of, or_true, or_false,
}
use picotm.TxList.Transaction.{
  ListEvent, ListTx, exec_locked, exec_list_clear, exec_list_insert, exec_list_erase,
  exec_list_pop_back, exec_list_push_front, exec_list_push_back, txlist_tx_exec_insert,
  txlist_tx_exec_erase, txlist_tx_exec_pop_front, txlist_tx_exec_pop_back,
  txlist_tx_exec_push_front, txlist_tx_exec_push_back,
}
use picotm.TxList.Session.{
  ListOp, insert_at, erase_entry, pop_front, pop_back, push_front, push_back, clear, is_new,
  run_list_op, exec_list_op,
}
use picotm.TxList.Walk.{list_begin-Seg, list_back-Seg}
use picotm.TxList.Moves.{IsGood, Outcome, Moves, insert-Moves, erase-Moves, same_Moves, front-Moves}
use picotm.TxList.Steps.{exec_locked-Outcome, exec_clear-Outcome}

and_true : (a b : Bool) → (a && b) ≡ true → (a ≡ true) × (b ≡ true)
and_true a b h = ground arith

eq_false : (b : Bool) → not b ≡ true → b ≡ false
eq_false b h = ground arith

in_or_end :
    (a b : ℕ) (xs : List ℕ) → (contains a xs || (a == b)) ≡ true → (contains a xs ≡ true) ⊎ (a ≡ b)
in_or_end a b xs h = ground arith

-- A test that guards a result holds where there is one.
pub guard_true :
    {A : Type 0} (b : Bool) (x : Option A) (y : A)
    → (if b then x else none) ≡ some y
    → (b ≡ true) × (x ≡ some y)
guard_true true x y h = (refl, h)
guard_true false x y h = absurd (none-ne-some y h)

insert_before-first : (e b : ℕ) (xs : List ℕ) → insert_before e (first_of xs b) xs ≡ e ∷ xs
insert_before-first e b [] = refl
insert_before-first e b (x ∷ xs) = if_true (x == x) _ _ (eq→== x x refl)

insert_before-out :
    (e b : ℕ) (xs : List ℕ) → contains b xs ≡ false → insert_before e b xs ≡ xs ++ e ∷ []
insert_before-out e b [] h = refl
insert_before-out e b (x ∷ xs) h =
    let (apart, others) = or_false (b == x) (contains b xs) h in
    if_false (b == x) _ _ apart ∙ ap (◌∷◌ x) (insert_before-out e b xs others)

contains-last_from : (a x : ℕ) (xs : List ℕ) → contains (last_from a (x ∷ xs)) (x ∷ xs) ≡ true
contains-last_from a x [] = or_true (x == x) false (eq→== x x refl)
contains-last_from a x (y ∷ xs) = ground (arith, contains-last_from x y xs)

other_last :
    (x y : ℕ) (xs : List ℕ)
    → contains x (y ∷ xs) ≡ false
    → contains (last_from x (y ∷ xs)) (y ∷ xs) ≡ true
    → (last_from x (y ∷ xs) == x) ≡ false
other_last x y xs h k =
    ne→== (last_from x (y ∷ xs)) x (λ q. true≢false (sym k ∙ ap (λ t. contains t (y ∷ xs)) q ∙ h))

without-last_from :
    (a x : ℕ) (xs : List ℕ)
    → IsDistinct (x ∷ xs)
    → without (last_from a (x ∷ xs)) (x ∷ xs) ≡ take (length xs) (x ∷ xs)
without-last_from a x [] d = if_true (x == x) _ _ (eq→== x x refl)
without-last_from a x (y ∷ xs) (dx, d) =
    let last = contains-last_from x y xs in
    if_false (last_from x (y ∷ xs) == x) _ _ (other_last x y xs dx last)
    ∙ ap (◌∷◌ x) (without-last_from x y xs d)

first_in : (xs : List ℕ) (b : ℕ) → (contains (first_of xs b) xs ≡ true) ⊎ (first_of xs b ≡ b)
first_in [] b = inr refl
first_in (x ∷ xs) b = inl (or_true (x == x) (contains x xs) (eq→== x x refl))

module _ (mine : ℕ → Bool) (head : ℕ) (start : Store) (fuel lock : ℕ) (wait : Attempt → Attempt)
    (resize : Error → Error) (append_event : ℕ → Error → Error)
    (appends : (n : ℕ) (e : Error) → is_set e ≡ false → is_set (append_event n e) ≡ false) where
  moved :
      (init : ListTx → ListEvent × ListTx) (xs zs ys : List ℕ) (self : ListTx)
      → zs ≡ ys
      → Moves mine head start init xs zs
      → IsGood mine head start self xs
      → (q : ListTx) × (exec_locked lock wait resize append_event init self ≡ some q)
        × Outcome mine head start xs ys q
  moved init xs zs ys self h moves good =
      exec_locked-Outcome mine head start lock wait resize append_event appends init xs ys self
        (same_Moves mine head start init init xs zs ys (λ t g. refl) h moves) good

  back-Moves :
      (x : ℕ) (xs : List ℕ)
      → Moves mine head start exec_list_pop_back (x ∷ xs) (take (length xs) (x ∷ xs))
  unfolding list_back
  back-Moves x xs self good =
      let last = last_from head (x ∷ xs) in
      same_Moves mine head start (exec_list_erase last) exec_list_pop_back (x ∷ xs)
        (without last (x ∷ xs)) (take (length xs) (x ∷ xs))
        (λ t g.
          ap (λ a. exec_list_erase a t)
            (ap t.store.prev g.same_head
              ∙ list_back-Seg t.store head head (x ∷ xs) g.tidy.list.seg))
        (without-last_from head x xs good.tidy.list.distinct)
        (erase-Moves mine head start last (x ∷ xs) (contains-last_from head x xs)) self good

  push_front-Moves :
      (e : ℕ) (xs : List ℕ)
      → mine e ≡ true
      → contains e xs ≡ false
      → Moves mine head start (exec_list_push_front e) xs (e ∷ xs)
  push_front-Moves e xs m c =
      same_Moves mine head start (exec_list_insert e (first_of xs head)) (exec_list_push_front e) xs
        (insert_before e (first_of xs head) xs) (e ∷ xs)
        (λ t g.
          ap (λ a. exec_list_insert e a t)
            (ap t.store.next g.same_head ∙ list_begin-Seg t.store head head xs g.tidy.list.seg))
        (insert_before-first e head xs)
        (insert-Moves mine head start e (first_of xs head) xs m c (first_in xs head))

  push_back-Moves :
      (e : ℕ) (xs : List ℕ)
      → mine e ≡ true
      → contains e xs ≡ false
      → Moves mine head start (exec_list_push_back e) xs (xs ++ e ∷ [])
  push_back-Moves e xs m c self good =
      same_Moves mine head start (exec_list_insert e head) (exec_list_push_back e) xs
        (insert_before e head xs) (xs ++ e ∷ [])
        (λ t g. ap (λ a. exec_list_insert e a t) g.same_head)
        (insert_before-out e head xs good.tidy.list.out)
        (insert-Moves mine head start e head xs m c (inr refl)) self good

  pub exec_list_op-Outcome :
      (op : ListOp) (xs ys : List ℕ) (self : ListTx)
      → run_list_op mine head op xs ≡ some ys
      → length xs < fuel
      → IsGood mine head start self xs
      → (q : ListTx) × (exec_list_op fuel lock wait resize append_event op self ≡ some q)
        × Outcome mine head start xs ys q
  unfolding txlist_tx_exec_insert txlist_tx_exec_erase txlist_tx_exec_pop_front
      txlist_tx_exec_pop_back txlist_tx_exec_push_front txlist_tx_exec_push_back list_front
      list_back
  exec_list_op-Outcome (insert_at e position) xs ys self h enough good =
      let (new, h2) = guard_true (is_new mine head e xs) _ ys h in
      let (m, c) = and_true (mine e) (not (contains e xs)) new in
      let (at, h3) = guard_true (contains position xs || (position == head)) _ ys h2 in
      moved (exec_list_insert e position) xs (insert_before e position xs) ys self
        (some-injective _ _ h3)
        (insert-Moves mine head start e position xs m (eq_false (contains e xs) c)
          (in_or_end position head xs at))
        good
  exec_list_op-Outcome (erase_entry e) xs ys self h enough good =
      let (c, h2) = guard_true (contains e xs) _ ys h in
      moved (exec_list_erase e) xs (without e xs) ys self (some-injective _ _ h2)
        (erase-Moves mine head start e xs c) good
  exec_list_op-Outcome pop_front [] ys self h enough good = absurd (none-ne-some _ h)
  exec_list_op-Outcome pop_front (x ∷ xs) ys self h enough good =
      moved exec_list_clear (x ∷ xs) xs ys self (some-injective _ _ h)
        (front-Moves mine head start x xs) good
  exec_list_op-Outcome pop_back [] ys self h enough good = absurd (none-ne-some _ h)
  exec_list_op-Outcome pop_back (x ∷ xs) ys self h enough good =
      moved exec_list_pop_back (x ∷ xs) (take (length xs) (x ∷ xs)) ys self (some-injective _ _ h)
        (back-Moves x xs) good
  exec_list_op-Outcome (push_front e) xs ys self h enough good =
      let (new, h2) = guard_true (is_new mine head e xs) _ ys h in
      let (m, c) = and_true (mine e) (not (contains e xs)) new in
      moved (exec_list_push_front e) xs (e ∷ xs) ys self (some-injective _ _ h2)
        (push_front-Moves e xs m (eq_false (contains e xs) c)) good
  exec_list_op-Outcome (push_back e) xs ys self h enough good =
      let (new, h2) = guard_true (is_new mine head e xs) _ ys h in
      let (m, c) = and_true (mine e) (not (contains e xs)) new in
      moved (exec_list_push_back e) xs (xs ++ e ∷ []) ys self (some-injective _ _ h2)
        (push_back-Moves e xs m (eq_false (contains e xs) c)) good
  exec_list_op-Outcome clear xs ys self h enough good =
      let (q, e, o) =
        exec_clear-Outcome mine head start lock wait resize append_event appends fuel xs self enough
          good in
      (q, e, subst (λ zs. Outcome mine head start xs zs q) (some-injective _ _ h) o)
