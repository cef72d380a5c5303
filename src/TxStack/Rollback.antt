-- ===== src/TxStack/Rollback.antt =====
-- modules/txlib/src/txstack_tx.c: a transaction that rolls back.
use picotm.Prelude.{
  ℕ, ◌≡◌, refl, sym, ◌∙◌, subst, ap, Bool, true, false, inl, inr, some, some-injective,
  none-ne-some, bind-some, List, [], ◌∷◌, ◌++◌, length, Bool-cases, if◌then◌else◌,
}
use picotm.Error.{Error, is_set}
use picotm.Rwlock.Wait.{Attempt}
use picotm.TxLib.Logged.{logged}
use picotm.TxStack.Session.{
  StackOp, push, pop, run_op, run_op-push, run_ops, exec_op, exec_ops, undo_all, exec_push-logged,
  exec_pop-local, exec_pop-shared,
}
use picotm.TxStack.Commit.{Pending, Pending-start, step}
use picotm.TxLib.{tx_failed, error_of}
use picotm.TxStack.{
  StackEvent, stack_push, stack_pop, StackTx, event_undo, without_top, txstack_tx_undo_push,
  txstack_tx_undo_pop,
}

-- What a rollback makes of the two stacks.
abbrev Undone : List ℕ → List ℕ → StackTx → Type 0
Undone local shared self =
    ((undo_all self.events self).local_entries ≡ local)
    × ((undo_all self.events self).shared_entries ≡ shared)

undo_all-snoc :
    (evs : List StackEvent) (ev : StackEvent) (self : StackTx)
    → undo_all (evs ++ ev ∷ []) self ≡ undo_all evs (event_undo ev self)
undo_all-snoc [] ev self = refl
undo_all-snoc (e ∷ evs) ev self = ap (event_undo e) (undo_all-snoc evs ev self)

abbrev undo_local : StackEvent → List ℕ → List ℕ
undo_local (stack_push e) l = without_top l
undo_local (stack_pop e true) l = e ∷ l
undo_local (stack_pop e false) l = l

abbrev undo_shared : StackEvent → List ℕ → List ℕ
undo_shared (stack_push e) s = s
undo_shared (stack_pop e true) s = s
undo_shared (stack_pop e false) s = e ∷ s

event_undo-local :
    (ev : StackEvent) (self : StackTx)
    → (event_undo ev self).local_entries ≡ undo_local ev self.local_entries
unfolding event_undo txstack_tx_undo_push txstack_tx_undo_pop
event_undo-local (stack_push e) self = refl
event_undo-local (stack_pop e true) self = refl
event_undo-local (stack_pop e false) self = refl

event_undo-shared :
    (ev : StackEvent) (self : StackTx)
    → (event_undo ev self).shared_entries ≡ undo_shared ev self.shared_entries
unfolding event_undo txstack_tx_undo_push txstack_tx_undo_pop
event_undo-shared (stack_push e) self = refl
event_undo-shared (stack_pop e true) self = refl
event_undo-shared (stack_pop e false) self = refl

-- The undo functions look at the two stacks only.
undo_all-stacks :
    (evs : List StackEvent) (a b : StackTx)
    → a.local_entries ≡ b.local_entries
    → a.shared_entries ≡ b.shared_entries
    → ((undo_all evs a).local_entries ≡ (undo_all evs b).local_entries)
      × ((undo_all evs a).shared_entries ≡ (undo_all evs b).shared_entries)
undo_all-stacks [] a b h k = (h, k)
undo_all-stacks (ev ∷ evs) a b h k =
    let (l, s) = undo_all-stacks evs a b h k in
    (
      event_undo-local ev _ ∙ ap (undo_local ev) l ∙ sym (event_undo-local ev _),
      event_undo-shared ev _ ∙ ap (undo_shared ev) s ∙ sym (event_undo-shared ev _),
    )

module _ (resize : Error → Error) (append_event : ℕ → Error → Error)
    (appends : (n : ℕ) (e : Error) → is_set e ≡ false → is_set (append_event n e) ≡ false) where
  -- A state with the same log and the same stacks rolls back to the same stacks.
  moved-Undone :
      (a b : StackTx) (l₀ s₀ : List ℕ)
      → Undone l₀ s₀ a
      → a.events ≡ b.events
      → b.local_entries ≡ a.local_entries
      → b.shared_entries ≡ a.shared_entries
      → Undone l₀ s₀ b
  moved-Undone a b l₀ s₀ u e h k =
      let (l, s) = undo_all-stacks a.events b a h k in
      subst (λ evs. ((undo_all evs b).local_entries ≡ l₀) × ((undo_all evs b).shared_entries ≡ s₀))
        e (l ∙ u.0, s ∙ u.1)

  logged-Undone :
      (self : StackTx) (ev : StackEvent) (local shared l₀ s₀ : List ℕ)
      → Undone l₀ s₀ self
      → undo_local ev local ≡ self.local_entries
      → undo_shared ev shared ≡ self.shared_entries
      → Undone l₀ s₀ (logged resize append_event self ev local shared)
  logged-Undone self ev local shared l₀ s₀ u h k =
      elim (Bool-cases (is_set (resize (error_of self)))) [
        | inl bad ↦ rw bad (moved-Undone self _ l₀ s₀ u refl refl refl)
        | inr good ↦
            rw (good, appends (length self.events) _ good, undo_all-snoc self.events ev)
              (let (l, s) =
                  undo_all-stacks self.events _ self (event_undo-local ev _ ∙ h)
                    (event_undo-shared ev _ ∙ k) in
                (l ∙ u.0, s ∙ u.1))
      ]

  if-Undone :
      (b : Bool) (self next : StackTx) (l₀ s₀ : List ℕ)
      → Undone l₀ s₀ self
      → Undone l₀ s₀ next
      → Undone l₀ s₀ (if b then self else next)
  if-Undone true self next l₀ s₀ u v = u
  if-Undone false self next l₀ s₀ u v = v

  module _ (lock : ℕ) (wait : Attempt → Attempt) where
    step-Undone :
        (op : StackOp) (local shared view l₀ s₀ : List ℕ) (self : StackTx)
        → run_op op (local ++ shared) ≡ some view
        → Undone l₀ s₀ (record self { local_entries = local; shared_entries = shared })
        → (q : StackTx) × (exec_op lock wait resize append_event op
              (record self { local_entries = local; shared_entries = shared })
            ≡ some q)
          × Undone l₀ s₀ q
    step-Undone (push e) local shared view l₀ s₀ self h u =
        let s = record self { local_entries = local; shared_entries = shared } in
        (
          _,
          exec_push-logged resize append_event e s (run_op-push e (local ++ shared) view h).0,
          logged-Undone s (stack_push e) (e ∷ local) shared l₀ s₀ u refl refl,
        )
    step-Undone pop [] [] view l₀ s₀ self h u = absurd (none-ne-some _ h)
    step-Undone pop [] (x ∷ shared) view l₀ s₀ self h u =
        let (s, e) = exec_pop-shared resize append_event lock wait x shared self in
        let locked = record self { local_entries = []; shared_entries = x ∷ shared; state = s } in
        let v =
          moved-Undone (record self { local_entries = []; shared_entries = x ∷ shared }) locked l₀
            s₀ u refl refl refl in
        (
          _,
          e,
          if-Undone (is_set s.attempt.error) _ _ l₀ s₀ v
              (logged-Undone locked (stack_pop x false) [] shared l₀ s₀ v refl refl),
        )
    step-Undone pop (x ∷ local) shared view l₀ s₀ self h u =
        let s = record self { local_entries = x ∷ local; shared_entries = shared } in
        (
          _,
          exec_pop-local resize append_event lock wait x local shared self,
          if-Undone (is_set (error_of self)) _ _ l₀ s₀ u
              (logged-Undone s (stack_pop x true) local shared l₀ s₀ u refl refl),
        )

    exec_ops-Undone :
        (ops : List StackOp) (self : StackTx) (view l₀ s₀ : List ℕ)
        → run_ops ops (self.local_entries ++ self.shared_entries) ≡ some view
        → Pending self
        → Undone l₀ s₀ self
        → (q : StackTx) × (exec_ops lock wait resize append_event ops self ≡ some q)
          × Undone l₀ s₀ q
    exec_ops-Undone [] self view l₀ s₀ h p u = (self, refl, u)
    exec_ops-Undone (op ∷ ops) self view l₀ s₀ h p u =
        let (next, h1, h2) =
          bind-some (run_op op (self.local_entries ++ self.shared_entries)) (run_ops ops) view h in
        let (q, e, d) =
          step resize append_event lock wait op self.local_entries self.shared_entries next self h1
            p in
        let (q2, e2, u2) =
          step-Undone op self.local_entries self.shared_entries next l₀ s₀ self h1 u in
        let v = subst (Undone l₀ s₀) (some-injective q2 q (sym e2 ∙ e)) u2 in
        elim (Bool-cases (tx_failed q)) [
          | inl bad ↦ (q, rw (e, bad) refl, v)
          | inr good ↦ elim d [
            | inl bad ↦ (q, rw (e, bad) refl, v)
            | inr (p2, same) ↦
                let (r, f, w) =
                  exec_ops-Undone ops q view l₀ s₀
                    (subst (λ l. run_ops ops l ≡ some view) (sym same) h2) p2 v in
                (r, rw (e, good) f, w)
          ]
        ]

-- A transaction that starts on a stack, with operations that a stack can do, always gets through them or to
-- its first error, and the rollback, which undoes the events from the last to the first, then leaves no
-- local entry and the shared stack as it was. The hypotheses: at the start there is no local entry and no
-- event, no operation takes from an empty stack or pushes an entry that stands in the stack, and the
-- append of an event does not fail. To acquire the
-- lock and to grow the log may fail at any time.
pub undo_all-exec_ops :
    (lock : ℕ) (wait : Attempt → Attempt) (resize : Error → Error)
    (append_event : ℕ → Error → Error) (ops : List StackOp) (self : StackTx) (final : List ℕ)
    → ((n : ℕ) (e : Error) → is_set e ≡ false → is_set (append_event n e) ≡ false)
    → self.local_entries ≡ []
    → self.events ≡ []
    → run_ops ops self.shared_entries ≡ some final
    → (q : StackTx) × (exec_ops lock wait resize append_event ops self ≡ some q)
      × ((undo_all q.events q).local_entries ≡ [])
      × ((undo_all q.events q).shared_entries ≡ self.shared_entries)
undo_all-exec_ops lock wait resize append_event ops self final appends no_local no_event h =
    let (q, e, u) =
      exec_ops-Undone resize append_event appends lock wait ops self final [] self.shared_entries
        (rw no_local h) (Pending-start self no_local) (rw no_event (no_local, refl)) in
    (q, e, u.0, u.1)
