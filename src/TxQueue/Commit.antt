-- ===== src/TxQueue/Commit.antt =====
-- modules/txlib/src/txqueue_tx.c: what a transaction that commits leaves in the shared queue.
use picotm.Prelude.{
  ℕ, ◌≡◌, ◌⊎◌, refl, sym, ◌∙◌, ap, subst, some-injective, none-ne-some, bind-some, Bool, true,
  false, inl, inr, some, List, [], ◌∷◌, ◌++◌, append-nil, append_assoc, length, ◌==◌, ==→eq, eq→==,
  if◌then◌else◌, Bool-cases,
}
use picotm.Prelude.Part.{Part, empty, skip, keep, Part-snoc, Part-tail}
use picotm.Error.{Error, is_set}
use picotm.Rwlock.Wait.{Attempt}
use picotm.TxLib.{tx_failed, error_of, pop_list}
use picotm.TxLib.Logged.{logged}
use picotm.TxQueue.{
  QueueEvent, queue_push, queue_pop, QueueTx, pop_rdlocked, txqueue_tx_apply_push, move_front,
  queue_event_apply,
}
use picotm.TxQueue.Session.{
  QueueOp, push, pop, run_op, run_op-push, run_ops, exec_op, exec_ops, apply_all, exec_push-logged,
  pop_rdlocked-local, pop_rdlocked-shared, exec_pop-rdlocked,
}

-- The entries of the push events.
abbrev pub pushes : List QueueEvent → List ℕ
pushes [] = []
pushes (queue_push e ∷ evs) = e ∷ pushes evs
pushes (queue_pop e b ∷ evs) = pushes evs

pushes-snoc :
    (evs : List QueueEvent) (ev : QueueEvent)
    → pushes (evs ++ ev ∷ []) ≡ pushes evs ++ pushes (ev ∷ [])
pushes-snoc [] ev = refl
pushes-snoc (queue_push e ∷ evs) ev = ap (◌∷◌ e) (pushes-snoc evs ev)
pushes-snoc (queue_pop e b ∷ evs) ev = pushes-snoc evs ev

apply_push-none :
    (e : ℕ) (shared : List ℕ) (self : QueueTx)
    → txqueue_tx_apply_push e (record self { local_entries = []; shared_entries = shared })
      ≡ record self { local_entries = []; shared_entries = shared }
unfolding txqueue_tx_apply_push move_front pop_list
apply_push-none e shared self = refl

-- A push event moves the front of the local queue if that is its entry.
apply_push-front :
    (entry b : ℕ) (p shared : List ℕ) (self : QueueTx)
    → txqueue_tx_apply_push entry (record self { local_entries = b ∷ p; shared_entries = shared })
      ≡ (if b == entry
          then record self { local_entries = p; shared_entries = shared ++ entry ∷ [] }
          else record self { local_entries = b ∷ p; shared_entries = shared })
unfolding txqueue_tx_apply_push move_front pop_list
apply_push-front entry b p shared self = refl

-- The local entries that are left stand for pushes that are still to be applied, in order.
apply_all-pushes :
    (evs : List QueueEvent) (p shared : List ℕ) (self : QueueTx)
    → Part p (pushes evs)
    → apply_all evs (record self { local_entries = p; shared_entries = shared })
      ≡ record self { local_entries = []; shared_entries = shared ++ p }
unfolding queue_event_apply
apply_all-pushes [] [] shared self h = rw append-nil refl
apply_all-pushes [] (b ∷ p) shared self h = elim h [ ]
apply_all-pushes (queue_pop e b ∷ evs) p shared self h = apply_all-pushes evs p shared self h
apply_all-pushes (queue_push e ∷ evs) [] shared self h =
    rw (apply_push-none e shared self) (apply_all-pushes evs [] shared self empty)
apply_all-pushes (queue_push e ∷ evs) (b ∷ p) shared self (skip _ h) = elim (Bool-cases (b == e)) [
  | inl eq_test ↦
      rw (apply_push-front e b p shared self, eq_test, sym (==→eq b e eq_test))
        (apply_all-pushes evs p (shared ++ b ∷ []) self (Part-tail h)
          ∙ ap (λ l. record self { local_entries = []; shared_entries = l })
              (append_assoc shared (b ∷ []) p))
  | inr ne_test ↦
      rw (apply_push-front e b p shared self, ne_test) (apply_all-pushes evs (b ∷ p) shared self h)
]
apply_all-pushes (queue_push _ ∷ evs) (e ∷ p) shared self (keep _ h) =
    rw (apply_push-front e e p shared self, eq→== e e refl)
      (apply_all-pushes evs p (shared ++ e ∷ []) self h
        ∙ ap (λ l. record self { local_entries = []; shared_entries = l })
            (append_assoc shared (e ∷ []) p))

-- The local queue has pushes of the log, in order.
abbrev pub Pending : QueueTx → Type 0
Pending self = Part self.local_entries (pushes self.events)

-- The operation has failed, or the log is in order and the queues are those that it leaves.
abbrev pub Done : QueueTx → List ℕ → Type 0
Done q view = (tx_failed q ≡ true) ⊎ (Pending q × (q.shared_entries ++ q.local_entries ≡ view))

module _ (resize : Error → Error) (append_event : ℕ → Error → Error) where
  logged-Done :
      (self : QueueTx) (ev : QueueEvent) (local shared : List ℕ)
      → Part local (pushes (self.events ++ ev ∷ []))
      → Done (logged resize append_event self ev local shared) (shared ++ local)
  unfolding tx_failed
  logged-Done self ev local shared p = elim (Bool-cases (is_set (resize (error_of self)))) [
    | inl bad ↦ rw bad (inl bad)
    | inr good ↦
        elim (Bool-cases (is_set (append_event (length self.events) (resize (error_of self))))) [
          | inl worse ↦ rw (good, worse) (inl worse)
          | inr fine ↦ rw (good, fine) (inr (p, refl))
        ]
  ]

  if-Done :
      (self next : QueueTx) (view : List ℕ)
      → Done next view
      → Done (if is_set (error_of self) then self else next) view
  unfolding tx_failed
  if-Done self next view d = elim (Bool-cases (is_set (error_of self))) [
    | inl bad ↦ rw bad (inl bad)
    | inr good ↦ rw good d
  ]

  module _ (lock : ℕ) (wait : Attempt → Attempt) where
    abbrev pub Steps : QueueOp → QueueTx → List ℕ → Type 0
    Steps op self view =
        (q : QueueTx) × (exec_op lock wait resize append_event op self ≡ some q) × Done q view

    push-step :
        (e : ℕ) (self : QueueTx)
        → Pending self
        → Steps (push e) self ((self.shared_entries ++ self.local_entries) ++ e ∷ [])
    push-step e self p = (
      _,
      exec_push-logged resize append_event e self,
      rw (append_assoc self.shared_entries self.local_entries (e ∷ [])) (
          logged-Done self (queue_push e) (self.local_entries ++ e ∷ []) self.shared_entries
            (rw (pushes-snoc self.events (queue_push e)) (Part-snoc e p))),
    )

    pop_events :
        (x : ℕ) (b : Bool) (local : List ℕ) (self : QueueTx)
        → Part local (pushes self.events)
        → Part local (pushes (self.events ++ queue_pop x b ∷ []))
    pop_events x b local self p =
        rw (pushes-snoc self.events (queue_pop x b), append-nil (pushes self.events)) p

    -- The part of a pop behind the reader lock.
    rdlocked-step :
        (local shared view : List ℕ) (self : QueueTx)
        → run_op pop (shared ++ local) ≡ some view
        → Part local (pushes self.events)
        → (q : QueueTx) × (pop_rdlocked resize append_event lock wait
              (record self { local_entries = local; shared_entries = shared })
            ≡ some q)
          × Done q view
    rdlocked-step [] [] view self h p = absurd (none-ne-some _ h)
    rdlocked-step (x ∷ local) [] view self h p =
        let start = record self { local_entries = x ∷ local; shared_entries = [] } in
        (
          _,
          pop_rdlocked-local resize append_event lock wait x local self,
          subst (Done _) (some-injective _ _ h) (
              if-Done start _ local (
                logged-Done start (queue_pop x true) local []
                  (pop_events x true local self (Part-tail p)))),
        )
    rdlocked-step local (x ∷ shared) view self h p =
        let (s, e) = pop_rdlocked-shared resize append_event lock wait x local shared self in
        let start = record self { local_entries = local; shared_entries = x ∷ shared; state = s } in
        (
          _,
          e,
          subst (Done _) (some-injective _ _ h) (
              if-Done start _ (shared ++ local) (
                logged-Done start (queue_pop x false) local shared
                  (pop_events x false local self p))),
        )

    pop-step :
        (self : QueueTx) (view : List ℕ)
        → run_op pop (self.shared_entries ++ self.local_entries) ≡ some view
        → Pending self
        → Steps pop self view
    unfolding tx_failed
    pop-step self view h p =
        let (s, e) = exec_pop-rdlocked resize append_event lock wait self in
        elim (Bool-cases (is_set s.attempt.error)) [
          | inl bad ↦ (record self { state = s }, rw (e, bad) refl, inl bad)
          | inr good ↦
              let (q, f, d) =
                rdlocked-step self.local_entries self.shared_entries view
                  (record self { state = s }) h p in
              (q, rw (e, good) f, d)
        ]

    pub step :
        (op : QueueOp) (self : QueueTx) (view : List ℕ)
        → run_op op (self.shared_entries ++ self.local_entries) ≡ some view
        → Pending self
        → Steps op self view
    step (push e) self view h p =
        subst (Steps (push e) self)
          (run_op-push e (self.shared_entries ++ self.local_entries) view h).1 (push-step e self p)
    step pop self view h p = pop-step self view h p

    exec_ops-Done :
        (ops : List QueueOp) (self : QueueTx) (view : List ℕ)
        → run_ops ops (self.shared_entries ++ self.local_entries) ≡ some view
        → Pending self
        → (q : QueueTx) × (exec_ops lock wait resize append_event ops self ≡ some q) × Done q view
    exec_ops-Done [] self view h p = (self, refl, inr (p, some-injective _ _ h))
    exec_ops-Done (op ∷ ops) self view h p =
        let (next, h1, h2) =
          bind-some (run_op op (self.shared_entries ++ self.local_entries)) (run_ops ops) view h in
        let (q, e, d) = step op self next h1 p in
        elim d [
          | inl bad ↦ (q, rw (e, bad) refl, inl bad)
          | inr (p2, same) ↦ elim (Bool-cases (tx_failed q)) [
            | inl bad ↦ (q, rw (e, bad) refl, inl bad)
            | inr good ↦
                let (r, f, done) =
                  exec_ops-Done ops q view (subst (λ l. run_ops ops l ≡ some view) (sym same) h2)
                    p2 in
                (r, rw (e, good) f, done)
          ]
        ]

-- A transaction that starts on a queue, with operations that a queue can do, always gets through them, or to
-- its first error. If there is no error, its commit, which applies the events of the log in order, leaves
-- no local entry, and leaves in the shared queue what the operations make of it one after the other. The
-- hypotheses: at the start there is no local entry, and no operation takes from an
-- empty queue or pushes an entry that stands in the queue.
pub queue_apply_all-exec_ops :
    (lock : ℕ) (wait : Attempt → Attempt) (resize : Error → Error)
    (append_event : ℕ → Error → Error) (ops : List QueueOp) (self : QueueTx) (final : List ℕ)
    → self.local_entries ≡ []
    → run_ops ops self.shared_entries ≡ some final
    → (q : QueueTx) × (exec_ops lock wait resize append_event ops self ≡ some q)
      × ((tx_failed q ≡ true)
          ⊎ ((apply_all q.events q).local_entries ≡ []
              × ((apply_all q.events q).shared_entries ≡ final)))
queue_apply_all-exec_ops lock wait resize append_event ops self final no_local h =
    let (q, e, d) =
      exec_ops-Done resize append_event lock wait ops self final
        (rw (no_local, append-nil self.shared_entries) h) (rw no_local empty) in
    (
      q,
      e,
      elim d [
        | inl bad ↦ inl bad
        | inr (p, same) ↦
            inr (rw (apply_all-pushes q.events q.local_entries q.shared_entries q p) (refl, same))
      ],
    )
