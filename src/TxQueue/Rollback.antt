-- ===== src/TxQueue/Rollback.antt =====
-- modules/txlib/src/txqueue_tx.c: a transaction that rolls back.
use picotm.Prelude.{
  ℕ, ◌≡◌, refl, sym, ◌∙◌, ap, subst, arith, some-injective, none-ne-some, bind-some, Bool, true,
  false, true≢false, inl, inr, some, List, [], ◌∷◌, ◌++◌, append-nil, length, ◌==◌, eq→==,
  if◌then◌else◌, Bool-cases,
}
use picotm.Prelude.Part.{empty}
use picotm.Error.{Error, is_set}
use picotm.Rwlock.Wait.{Attempt}
use picotm.TxLib.{member, tx_failed, error_of}
use picotm.TxLib.Logged.{logged}
use picotm.TxQueue.{
  QueueEvent, queue_push, queue_pop, QueueTx, erase, pop_rdlocked, queue_event_undo,
  txqueue_tx_undo_push, txqueue_tx_undo_pop,
}
use picotm.TxQueue.Session.{
  QueueOp, push, pop, run_op, run_op-push, run_ops, exec_op, exec_ops, undo_all, exec_push-logged,
  pop_rdlocked-local, pop_rdlocked-shared, exec_pop-rdlocked,
}
use picotm.TxQueue.Commit.{Pending, step}

-- What a rollback makes of the two stacks.
abbrev Undone : List ℕ → List ℕ → QueueTx → Type 0
Undone local shared self =
    ((undo_all self.events self).local_entries ≡ local)
    × ((undo_all self.events self).shared_entries ≡ shared)

undo_all-snoc :
    (evs : List QueueEvent) (ev : QueueEvent) (self : QueueTx)
    → undo_all (evs ++ ev ∷ []) self ≡ undo_all evs (queue_event_undo ev self)
undo_all-snoc [] ev self = refl
undo_all-snoc (e ∷ evs) ev self = ap (queue_event_undo e) (undo_all-snoc evs ev self)

abbrev undo_local : QueueEvent → List ℕ → List ℕ
undo_local (queue_push e) l = erase e l
undo_local (queue_pop e true) l = e ∷ l
undo_local (queue_pop e false) l = l

abbrev undo_shared : QueueEvent → List ℕ → List ℕ
undo_shared (queue_push e) s = s
undo_shared (queue_pop e true) s = s
undo_shared (queue_pop e false) s = e ∷ s

event_undo-local :
    (ev : QueueEvent) (self : QueueTx)
    → (queue_event_undo ev self).local_entries ≡ undo_local ev self.local_entries
unfolding queue_event_undo txqueue_tx_undo_push txqueue_tx_undo_pop
event_undo-local (queue_push e) self = refl
event_undo-local (queue_pop e true) self = refl
event_undo-local (queue_pop e false) self = refl

event_undo-shared :
    (ev : QueueEvent) (self : QueueTx)
    → (queue_event_undo ev self).shared_entries ≡ undo_shared ev self.shared_entries
unfolding queue_event_undo txqueue_tx_undo_push txqueue_tx_undo_pop
event_undo-shared (queue_push e) self = refl
event_undo-shared (queue_pop e true) self = refl
event_undo-shared (queue_pop e false) self = refl

member-append : (e : ℕ) (xs ys : List ℕ) → member e (xs ++ ys) ≡ false → member e ys ≡ false
member-append e [] ys h = h
member-append e (x ∷ xs) ys h = ground (arith, member-append e xs ys)

erase-snoc : (e : ℕ) (xs : List ℕ) → member e xs ≡ false → erase e (xs ++ e ∷ []) ≡ xs
unfolding erase
erase-snoc e [] h = rw (eq→== e e refl) refl
erase-snoc e (x ∷ xs) h = elim (Bool-cases (x == e)) [
  | inl same ↦ absurd (true≢false (rw same at h))
  | inr other ↦ rw (other) (ap (◌∷◌ x) (erase-snoc e xs (rw other at h)))
]

-- The undo functions look at the two stacks only.
undo_all-stacks :
    (evs : List QueueEvent) (a b : QueueTx)
    → a.local_entries ≡ b.local_entries
    → a.shared_entries ≡ b.shared_entries
    → ((undo_all evs a).local_entries ≡ (undo_all evs b).local_entries)
      × ((undo_all evs a).shared_entries ≡ (undo_all evs b).shared_entries)
undo_all-stacks [] a b h k = (h, k)
undo_all-stacks (ev ∷ evs) a b h k =
    let (l, s) = undo_all-stacks evs a b h k in
    (
      event_undo-local ev _ ∙ ap (undo_local ev) l ∙ sym (event_undo-local ev _),
      event_undo-shared ev _ ∙ ap (undo_shared ev) s ∙ sym (event_undo-shared ev _),
    )

module _ (resize : Error → Error) (append_event : ℕ → Error → Error)
    (appends : (n : ℕ) (e : Error) → is_set e ≡ false → is_set (append_event n e) ≡ false) where
  -- A state with the same log and the same stacks rolls back to the same stacks.
  moved-Undone :
      (a b : QueueTx) (l₀ s₀ : List ℕ)
      → Undone l₀ s₀ a
      → a.events ≡ b.events
      → b.local_entries ≡ a.local_entries
      → b.shared_entries ≡ a.shared_entries
      → Undone l₀ s₀ b
  moved-Undone a b l₀ s₀ u e h k =
      let (l, s) = undo_all-stacks a.events b a h k in
      subst (λ evs. ((undo_all evs b).local_entries ≡ l₀) × ((undo_all evs b).shared_entries ≡ s₀))
        e (l ∙ u.0, s ∙ u.1)

  logged-Undone :
      (self : QueueTx) (ev : QueueEvent) (local shared l₀ s₀ : List ℕ)
      → Undone l₀ s₀ self
      → undo_local ev local ≡ self.local_entries
      → undo_shared ev shared ≡ self.shared_entries
      → Undone l₀ s₀ (logged resize append_event self ev local shared)
  logged-Undone self ev local shared l₀ s₀ u h k =
      elim (Bool-cases (is_set (resize (error_of self)))) [
        | inl bad ↦ rw bad (moved-Undone self _ l₀ s₀ u refl refl refl)
        | inr good ↦
            rw (good, appends (length self.events) _ good, undo_all-snoc self.events ev)
              (let (l, s) =
                  undo_all-stacks self.events _ self (event_undo-local ev _ ∙ h)
                    (event_undo-shared ev _ ∙ k) in
                (l ∙ u.0, s ∙ u.1))
      ]

  if-Undone :
      (b : Bool) (self next : QueueTx) (l₀ s₀ : List ℕ)
      → Undone l₀ s₀ self
      → Undone l₀ s₀ next
      → Undone l₀ s₀ (if b then self else next)
  if-Undone true self next l₀ s₀ u v = u
  if-Undone false self next l₀ s₀ u v = v

  module _ (lock : ℕ) (wait : Attempt → Attempt) where
    abbrev Restores : QueueOp → QueueTx → List ℕ → List ℕ → Type 0
    Restores op self l₀ s₀ =
        (q : QueueTx) × (exec_op lock wait resize append_event op self ≡ some q) × Undone l₀ s₀ q

    rdlocked-Undone :
        (local shared view l₀ s₀ : List ℕ) (self : QueueTx)
        → run_op pop (shared ++ local) ≡ some view
        → Undone l₀ s₀ (record self { local_entries = local; shared_entries = shared })
        → (q : QueueTx) × (pop_rdlocked resize append_event lock wait
              (record self { local_entries = local; shared_entries = shared })
            ≡ some q)
          × Undone l₀ s₀ q
    rdlocked-Undone [] [] view l₀ s₀ self h u = absurd (none-ne-some _ h)
    rdlocked-Undone (x ∷ local) [] view l₀ s₀ self h u =
        let start = record self { local_entries = x ∷ local; shared_entries = [] } in
        (
          _,
          pop_rdlocked-local resize append_event lock wait x local self,
          if-Undone (is_set (error_of self)) _ _ l₀ s₀ u
              (logged-Undone start (queue_pop x true) local [] l₀ s₀ u refl refl),
        )
    rdlocked-Undone local (x ∷ shared) view l₀ s₀ self h u =
        let (s, e) = pop_rdlocked-shared resize append_event lock wait x local shared self in
        let start = record self { local_entries = local; shared_entries = x ∷ shared; state = s } in
        let v =
          moved-Undone (record self { local_entries = local; shared_entries = x ∷ shared }) start l₀
            s₀ u refl refl refl in
        (
          _,
          e,
          if-Undone (is_set s.attempt.error) _ _ l₀ s₀ v
              (logged-Undone start (queue_pop x false) local shared l₀ s₀ v refl refl),
        )

    step-Undone :
        (op : QueueOp) (self : QueueTx) (view l₀ s₀ : List ℕ)
        → run_op op (self.shared_entries ++ self.local_entries) ≡ some view
        → Undone l₀ s₀ self
        → Restores op self l₀ s₀
    step-Undone (push e) self view l₀ s₀ h u = (
      _,
      exec_push-logged resize append_event e self,
      logged-Undone self (queue_push e) (self.local_entries ++ e ∷ []) self.shared_entries l₀ s₀ u
          (erase-snoc e self.local_entries (
            member-append e self.shared_entries self.local_entries
              (run_op-push e (self.shared_entries ++ self.local_entries) view h).0))
          refl,
    )
    step-Undone pop self view l₀ s₀ h u =
        let (s, e) = exec_pop-rdlocked resize append_event lock wait self in
        let locked = record self { state = s } in
        let v = moved-Undone self locked l₀ s₀ u refl refl refl in
        elim (Bool-cases (is_set s.attempt.error)) [
          | inl bad ↦ (locked, rw (e, bad) refl, v)
          | inr good ↦
              let (q, f, w) =
                rdlocked-Undone self.local_entries self.shared_entries view l₀ s₀ locked h v in
              (q, rw (e, good) f, w)
        ]

    exec_ops-Undone :
        (ops : List QueueOp) (self : QueueTx) (view l₀ s₀ : List ℕ)
        → run_ops ops (self.shared_entries ++ self.local_entries) ≡ some view
        → Pending self
        → Undone l₀ s₀ self
        → (q : QueueTx) × (exec_ops lock wait resize append_event ops self ≡ some q)
          × Undone l₀ s₀ q
    exec_ops-Undone [] self view l₀ s₀ h p u = (self, refl, u)
    exec_ops-Undone (op ∷ ops) self view l₀ s₀ h p u =
        let (next, h1, h2) =
          bind-some (run_op op (self.shared_entries ++ self.local_entries)) (run_ops ops) view h in
        let (q, e, d) = step resize append_event lock wait op self next h1 p in
        let (q2, e2, u2) = step-Undone op self next l₀ s₀ h1 u in
        let v = subst (Undone l₀ s₀) (some-injective q2 q (sym e2 ∙ e)) u2 in
        elim (Bool-cases (tx_failed q)) [
          | inl bad ↦ (q, rw (e, bad) refl, v)
          | inr good ↦ elim d [
            | inl bad ↦ (q, rw (e, bad) refl, v)
            | inr (p2, same) ↦
                let (r, f, w) =
                  exec_ops-Undone ops q view l₀ s₀
                    (subst (λ l. run_ops ops l ≡ some view) (sym same) h2) p2 v in
                (r, rw (e, good) f, w)
          ]
        ]

-- A transaction that starts on a queue, with operations that a queue can do, always gets through them or to
-- its first error, and the rollback, which undoes the events from the last to the first, then leaves no
-- local entry and the shared queue as it was. The hypotheses: at the start there is no local entry and no
-- event, no operation takes from an empty queue or pushes an entry that stands in the queue, and the append
-- of an event does not fail. To acquire the lock and to grow the log may fail at any time.
pub queue_undo_all-exec_ops :
    (lock : ℕ) (wait : Attempt → Attempt) (resize : Error → Error)
    (append_event : ℕ → Error → Error) (ops : List QueueOp) (self : QueueTx) (final : List ℕ)
    → ((n : ℕ) (e : Error) → is_set e ≡ false → is_set (append_event n e) ≡ false)
    → self.local_entries ≡ []
    → self.events ≡ []
    → run_ops ops self.shared_entries ≡ some final
    → (q : QueueTx) × (exec_ops lock wait resize append_event ops self ≡ some q)
      × ((undo_all q.events q).local_entries ≡ [])
      × ((undo_all q.events q).shared_entries ≡ self.shared_entries)
queue_undo_all-exec_ops lock wait resize append_event ops self final appends no_local no_event h =
    let (q, e, u) =
      exec_ops-Undone resize append_event appends lock wait ops self final [] self.shared_entries
        (rw (no_local, append-nil self.shared_entries) h) (rw no_local empty)
        (rw no_event (no_local, refl)) in
    (q, e, u.0, u.1)
