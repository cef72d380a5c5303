-- ===== src/TxStack/Commit.antt =====
-- modules/txlib/src/txstack_tx.c: a transaction that commits does to the shared stack what its operations
-- would have done one after the other.
use picotm.Prelude.{
  ℕ, ◌≡◌, ◌⊎◌, refl, sym, subst, some-injective, none-ne-some, bind-some, ◌∙◌, ap, true, false, inl,
  inr, some, List, [], ◌∷◌, ◌++◌, length, append-nil, append_assoc, reverse, reverse-cons,
  reverse-reverse, ◌==◌, ==→eq, eq→==, Bool-cases, if◌then◌else◌,
}
use picotm.Prelude.Part.{Part, empty, skip, keep, Part-snoc, Part-tail, Part-init}
use picotm.Error.{Error, is_set}
use picotm.Rwlock.Wait.{Attempt}
use picotm.TxLib.Logged.{logged}
use picotm.TxStack.Session.{
  StackOp, push, pop, run_op, run_op-push, run_ops, exec_op, exec_ops, apply_all, exec_push-logged,
  exec_pop-local, exec_pop-shared,
}
use picotm.TxLib.{member, error_of, tx_failed}
use picotm.TxStack.{
  StackEvent, stack_push, stack_pop, StackTx, event_apply, txstack_tx_apply_push, unsnoc,
}

-- The entries of the push events.
abbrev pub pushes : List StackEvent → List ℕ
pushes [] = []
pushes (stack_push e ∷ evs) = e ∷ pushes evs
pushes (stack_pop e b ∷ evs) = pushes evs

unsnoc-snoc : (xs : List ℕ) (b : ℕ) → unsnoc (xs ++ b ∷ []) ≡ some (xs, b)
unfolding unsnoc
unsnoc-snoc [] b = refl
unsnoc-snoc (x ∷ xs) b = rw (unsnoc-snoc xs b)

-- A push event moves the bottom of the local stack if that is its entry.
apply_push-bottom :
    (entry b : ℕ) (p shared : List ℕ) (self : StackTx)
    → txstack_tx_apply_push entry
        (record self { local_entries = reverse (b ∷ p); shared_entries = shared })
      ≡ (if b == entry
          then record self { local_entries = reverse p; shared_entries = entry ∷ shared }
          else record self { local_entries = reverse (b ∷ p); shared_entries = shared })
unfolding txstack_tx_apply_push
apply_push-bottom entry b p shared self = rw (reverse-cons b p, unsnoc-snoc (reverse p) b)

apply_push-none :
    (e : ℕ) (self : StackTx) (shared : List ℕ)
    → txstack_tx_apply_push e (record self { local_entries = []; shared_entries = shared })
      ≡ record self { local_entries = []; shared_entries = shared }
unfolding txstack_tx_apply_push unsnoc
apply_push-none e self shared = refl

reverse-cons_append :
    (x : ℕ) (p shared : List ℕ) → reverse p ++ x ∷ shared ≡ reverse (x ∷ p) ++ shared
reverse-cons_append x p shared =
    sym (ap (λ l. l ++ shared) (reverse-cons x p) ∙ append_assoc (reverse p) (x ∷ []) shared)

-- The local entries that are left stand for pushes that are still to be applied, in order.
apply_all-pushes :
    (evs : List StackEvent) (p shared : List ℕ) (self : StackTx)
    → Part p (pushes evs)
    → apply_all evs (record self { local_entries = reverse p; shared_entries = shared })
      ≡ record self { local_entries = []; shared_entries = reverse p ++ shared }
unfolding event_apply
apply_all-pushes [] [] shared self h = refl
apply_all-pushes (stack_pop e b ∷ evs) p shared self h = apply_all-pushes evs p shared self h
apply_all-pushes [] (b ∷ p) shared self h = elim h [ ]
apply_all-pushes (stack_push e ∷ evs) [] shared self h =
    rw (apply_push-none e self shared) (apply_all-pushes evs [] shared self empty)
apply_all-pushes (stack_push e ∷ evs) (b ∷ p) shared self (skip _ h) = elim (Bool-cases (b == e)) [
  | inl same ↦
      rw (apply_push-bottom e b p shared self, same)
        (ap
            (λ c.
              apply_all evs
                (record self { local_entries = reverse p; shared_entries = c ∷ shared }))
            (sym (==→eq b e same))
          ∙ apply_all-pushes evs p (b ∷ shared) self (Part-tail h)
          ∙ ap (λ l. record self { local_entries = []; shared_entries = l })
              (reverse-cons_append b p shared))
  | inr ne ↦
      rw (apply_push-bottom e b p shared self, ne) (apply_all-pushes evs (b ∷ p) shared self h)
]
apply_all-pushes (stack_push _ ∷ evs) (e ∷ p) shared self (keep _ h) =
    rw (apply_push-bottom e e p shared self, eq→== e e refl)
      (apply_all-pushes evs p (e ∷ shared) self h
        ∙ ap (λ l. record self { local_entries = []; shared_entries = l })
            (reverse-cons_append e p shared))

-- Every push that is not yet applied, oldest first, is an event of the log.
abbrev pub Pending : StackTx → Type 0
Pending self = Part (reverse self.local_entries) (pushes self.events)

pub Pending-start : (self : StackTx) → self.local_entries ≡ [] → Pending self
Pending-start self h = rw h empty

pushes-snoc :
    (evs : List StackEvent) (ev : StackEvent)
    → pushes (evs ++ ev ∷ []) ≡ pushes evs ++ pushes (ev ∷ [])
pushes-snoc [] ev = refl
pushes-snoc (stack_push e ∷ evs) ev = ap (◌∷◌ e) (pushes-snoc evs ev)
pushes-snoc (stack_pop e b ∷ evs) ev = pushes-snoc evs ev

apply_all-Pending :
    (q : StackTx)
    → Pending q
    → apply_all q.events q
      ≡ record q { local_entries = []; shared_entries = q.local_entries ++ q.shared_entries }
apply_all-Pending q p =
    subst
      (λ l.
        apply_all q.events (record q { local_entries = l })
        ≡ record q { local_entries = []; shared_entries = l ++ q.shared_entries })
      (reverse-reverse q.local_entries)
      (apply_all-pushes q.events (reverse q.local_entries) q.shared_entries q p)

module _ (resize : Error → Error) (append_event : ℕ → Error → Error) where
  -- The operation has failed, or the log is in order and the stacks are those that it leaves.
  abbrev pub Done : StackTx → List ℕ → Type 0
  Done q view = (tx_failed q ≡ true) ⊎ (Pending q × (q.local_entries ++ q.shared_entries ≡ view))

  logged-Done :
      (self : StackTx) (ev : StackEvent) (local shared : List ℕ)
      → Part (reverse local) (pushes (self.events ++ ev ∷ []))
      → Done (logged resize append_event self ev local shared) (local ++ shared)
  unfolding tx_failed
  logged-Done self ev local shared p = elim (Bool-cases (is_set (resize (error_of self)))) [
    | inl bad ↦ rw bad (inl bad)
    | inr good ↦
        elim (Bool-cases (is_set (append_event (length self.events) (resize (error_of self))))) [
          | inl worse ↦ rw (good, worse) (inl worse)
          | inr fine ↦ rw (good, fine) (inr (p, refl))
        ]
  ]

  if-Done :
      (self next : StackTx) (view : List ℕ)
      → Done next view
      → Done (if is_set (error_of self) then self else next) view
  unfolding tx_failed
  if-Done self next view d = elim (Bool-cases (is_set (error_of self))) [
    | inl bad ↦ rw bad (inl bad)
    | inr good ↦ rw good d
  ]

  module _ (lock : ℕ) (wait : Attempt → Attempt) where
    abbrev pub Steps : StackOp → StackTx → List ℕ → Type 0
    Steps op self view =
        (q : StackTx) × (exec_op lock wait resize append_event op self ≡ some q) × Done q view

    push-step :
        (e : ℕ) (self : StackTx)
        → member e (self.local_entries ++ self.shared_entries) ≡ false
        → Pending self
        → Steps (push e) self (e ∷ self.local_entries ++ self.shared_entries)
    push-step e self fresh p = (
      _,
      exec_push-logged resize append_event e self fresh,
      logged-Done self (stack_push e) (e ∷ self.local_entries) self.shared_entries (
          rw (reverse-cons e self.local_entries, pushes-snoc self.events (stack_push e))
            (Part-snoc e p)),
    )

    pop-step_local :
        (x : ℕ) (local shared : List ℕ) (self : StackTx)
        → Pending (record self { local_entries = x ∷ local; shared_entries = shared })
        → Steps pop
            (record self { local_entries = x ∷ local; shared_entries = shared })
            (local ++ shared)
    pop-step_local x local shared self p = (
      _,
      exec_pop-local resize append_event lock wait x local shared self,
      if-Done (record self { local_entries = x ∷ local; shared_entries = shared }) _
          (local ++ shared)
          (logged-Done (record self { local_entries = x ∷ local; shared_entries = shared })
            (stack_pop x true) local shared
            (rw (pushes-snoc self.events (stack_pop x true), append-nil (pushes self.events))
              (Part-init (reverse local) x (pushes self.events)
                (subst (λ l. Part l (pushes self.events)) (reverse-cons x local) p)))),
    )

    pop-step_shared :
        (x : ℕ) (shared : List ℕ) (self : StackTx)
        → Steps pop (record self { local_entries = []; shared_entries = x ∷ shared }) shared
    pop-step_shared x shared self =
        let (s, e) = exec_pop-shared resize append_event lock wait x shared self in
        (
          _,
          e,
          if-Done (record self { local_entries = []; shared_entries = x ∷ shared; state = s }) _
              shared
              (logged-Done
                (record self { local_entries = []; shared_entries = x ∷ shared; state = s })
                (stack_pop x false) [] shared empty),
        )

    pub step :
        (op : StackOp) (local shared view : List ℕ) (self : StackTx)
        → run_op op (local ++ shared) ≡ some view
        → Pending (record self { local_entries = local; shared_entries = shared })
        → Steps op (record self { local_entries = local; shared_entries = shared }) view
    step (push e) local shared view self h p =
        let (fresh, same) = run_op-push e (local ++ shared) view h in
        subst (Steps (push e) _) same
          (push-step e (record self { local_entries = local; shared_entries = shared }) fresh p)
    step pop [] [] view self h p = absurd (none-ne-some _ h)
    step pop [] (x ∷ shared) view self h p =
        subst (Steps pop _) (some-injective _ _ h) (pop-step_shared x shared self)
    step pop (x ∷ local) shared view self h p =
        subst (Steps pop _) (some-injective _ _ h) (pop-step_local x local shared self p)

    exec_ops-Done :
        (ops : List StackOp) (self : StackTx) (view : List ℕ)
        → run_ops ops (self.local_entries ++ self.shared_entries) ≡ some view
        → Pending self
        → (q : StackTx) × (exec_ops lock wait resize append_event ops self ≡ some q) × Done q view
    exec_ops-Done [] self view h p = (self, refl, inr (p, some-injective _ _ h))
    exec_ops-Done (op ∷ ops) self view h p =
        let (next, h1, h2) =
          bind-some (run_op op (self.local_entries ++ self.shared_entries)) (run_ops ops) view h in
        let (q, e, d) = step op self.local_entries self.shared_entries next self h1 p in
        elim d [
          | inl bad ↦ (q, rw (e, bad) refl, inl bad)
          | inr (p2, same) ↦ elim (Bool-cases (tx_failed q)) [
            | inl bad ↦ (q, rw (e, bad) refl, inl bad)
            | inr good ↦
                let (r, f, done) = exec_ops-Done ops q view (rw (same) h2) p2 in
                (r, rw (e, good) f, done)
          ]
        ]

-- A transaction that starts on a stack, with operations that a stack can do, always gets through them. It
-- ends in an error; or its commit, which applies the events of the log in order, leaves no local entry,
-- and leaves in the shared stack what the operations make of it one after the other. The hypotheses: at
-- the start there is no local entry, and no operation takes from an empty stack or pushes an entry that
-- stands in the stack.
pub apply_all-exec_ops :
    (lock : ℕ) (wait : Attempt → Attempt) (resize : Error → Error)
    (append_event : ℕ → Error → Error) (ops : List StackOp) (self : StackTx) (final : List ℕ)
    → self.local_entries ≡ []
    → run_ops ops self.shared_entries ≡ some final
    → (q : StackTx) × (exec_ops lock wait resize append_event ops self ≡ some q)
      × ((tx_failed q ≡ true)
          ⊎ ((apply_all q.events q).local_entries ≡ []
              × ((apply_all q.events q).shared_entries ≡ final)))
apply_all-exec_ops lock wait resize append_event ops self final empty_local h =
    let (q, e, d) =
      exec_ops-Done resize append_event lock wait ops self final (rw empty_local h)
        (Pending-start self empty_local) in
    (
      q,
      e,
      elim d [ inl bad ↦ inl bad | inr (p, same) ↦ inr (rw (apply_all-Pending q p) (refl, same)) ],
    )
