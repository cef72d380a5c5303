-- ===== src/Tests/Retries.antt =====
-- A transaction that asks for a retry as long as it is revocable.
use picotm.Prelude.{
  ℕ, ◌+◌, ◌≡◌, ◌⊎◌, inl, inr, refl, ◌∙◌, sym, subst, Bool, true, false, Option, none, some, List,
  [], ◌∷◌, ◌++◌, map, reverse, if◌then◌else◌, Bool-cases, zero, suc,
}
use picotm.Error.{Error, is_set, error_initializer, is_set-initializer}
use picotm.Module.{
  Run, Module, failed, module_begin, module_undo, module_finish, module_apply,
  module_prepare_commit, module_undo_event, module_apply_event,
}
use picotm.Event.{Event}
use picotm.Log.{log_events}
use picotm.Tx.{
  Tx, TxMode, tx_commit, undo_event, apply_event, tx_release_irrevocability, tx_is_irrevocable,
  select_mode, effective_mode, revocable, irrevocable,
}
use picotm.LockManager.{wait_irrevocable, make_irrevocable, release_irrevocability}
use picotm.Tx.Calls.{run_calls}
use picotm.Tx.Commit.{cleared, prepare_calls, apply_calls, commit_complete}
use picotm.Tx.Rollback.{undo_calls}
use picotm.Tx.Begin.{granted, stamped, retries}
use picotm.LockOwner.{reset_timestamp}
use picotm.Os.{os_rwlock_rdlock, os_rwlock_wrlock, os_rwlock_unlock, os_get_timespec}
use picotm.Picotm.{Front, Jump, go_on, jump, mode_retry, mode_start, run_transaction}
use picotm.Picotm.Retry.{run_transaction_lem}
use picotm.Tests.Data.{no_error, adder, free_lock, stopped_clock, tx_of, module_of}

abbrev one_adder : List (Module ℕ)
one_adder = module_of adder 10 ∷ []

abbrev fresh_thread : Run ℕ → Tx ℕ × Run ℕ
fresh_thread r = (tx_of one_adder, r)

abbrev unwilling_in : Front ℕ → ℕ → Option (Tx ℕ) → Front ℕ × ℕ × Jump
unwilling_in f w none = (f, w, go_on)
unwilling_in f w (some t) = (f, w + 1, if tx_is_irrevocable t then go_on else jump mode_retry)

abbrev unwilling : Front ℕ → ℕ → Front ℕ × ℕ × Jump
unwilling f w = unwilling_in f w f.tx

grants :
    (t : Tx ℕ) (mode : TxMode) (is_retry : Bool) (w : ℕ)
    → t.modules ≡ one_adder
    → failed (granted free_lock stopped_clock t mode is_retry none (no_error w)).1 ≡ false
unfolding failed is_set select_mode wait_irrevocable make_irrevocable os_rwlock_rdlock
    os_rwlock_wrlock
grants t mode is_retry w h =
    granted_in
      (effective_mode mode (retries free_lock stopped_clock t mode is_retry none (no_error w)))
  where
    granted_in : (m : TxMode) → failed (select_mode free_lock m t (no_error w)).1 ≡ false
    granted_in revocable = refl
    granted_in irrevocable = refl

stamps :
    (t : Tx ℕ) (mode : TxMode) (is_retry : Bool) (w : ℕ)
    → t.modules ≡ one_adder
    → failed (stamped free_lock stopped_clock t mode is_retry none (no_error w)).1 ≡ false
unfolding failed is_set select_mode wait_irrevocable make_irrevocable os_rwlock_rdlock
    os_rwlock_wrlock reset_timestamp os_get_timespec
stamps t mode is_retry w h =
    stamped_in
      (effective_mode mode (retries free_lock stopped_clock t mode is_retry none (no_error w)))
  where
    stamped_in :
        (m : TxMode)
        → failed (reset_timestamp stopped_clock t.lo (select_mode free_lock m t (no_error w)).1).1
          ≡ false
    stamped_in revocable = refl
    stamped_in irrevocable = refl

begins : (r : Run ℕ) → failed r ≡ false → failed (run_calls (map module_begin one_adder) r) ≡ false
unfolding module_begin
begins r h = rw h h

-- Calls that leave the error as it is.
abbrev Calm : List (Run ℕ → Run ℕ) → Type 0
Calm [] = Unit {0}
Calm (c ∷ cs) = ((r : Run ℕ) → failed (c r) ≡ failed r) × Calm cs

run_calls-Calm :
    (cs : List (Run ℕ → Run ℕ)) (r : Run ℕ)
    → Calm cs
    → failed r ≡ false
    → failed (run_calls cs r) ≡ false
run_calls-Calm [] r calm h = h
run_calls-Calm (c ∷ cs) r calm h = rw (calm.0 r, h) (run_calls-Calm cs (c r) calm.1 (calm.0 r ∙ h))

append-Calm : (cs ds : List (Run ℕ → Run ℕ)) → Calm cs → Calm ds → Calm (cs ++ ds)
append-Calm [] ds a b = b
append-Calm (c ∷ cs) ds a b = (a.0, append-Calm cs ds a.1 b)

undone :
    (n head tail : ℕ) (r : Run ℕ)
    → failed (undo_event (record { module_id = n; head = head; tail = tail }) one_adder r)
      ≡ failed r
unfolding failed undo_event module_undo_event
undone zero head tail r = refl
undone (suc n) head tail r = refl

applied :
    (n head tail : ℕ) (r : Run ℕ)
    → failed (apply_event (record { module_id = n; head = head; tail = tail }) one_adder r)
      ≡ failed r
unfolding failed apply_event module_apply_event
applied zero head tail r = refl
applied (suc n) head tail r = refl

events-Calm :
    (f : Event → Run ℕ → Run ℕ) (es : List Event)
    → ((e : Event) (r : Run ℕ) → failed (f e r) ≡ failed r)
    → Calm (map f es)
events-Calm f [] h = tt
events-Calm f (e ∷ es) h = (h e, events-Calm f es h)

finishes : Calm (map module_finish one_adder)
unfolding module_finish failed
finishes = (λ r. refl, tt)

undoes :
    (t : Tx ℕ) (w : ℕ)
    → t.modules ≡ one_adder
    → failed (run_calls (undo_calls t) (no_error w)) ≡ false
unfolding failed module_undo
undoes t w h =
    run_calls-Calm (undo_calls t) (no_error w)
      (subst
        (λ ms. Calm (
          map module_undo ms
          ++ (map (λ e. undo_event e ms) (reverse (log_events t.log)) ++ map module_finish ms)))
        (sym h)
        (
          λ r. refl,
          append-Calm (map (λ e. undo_event e one_adder) (reverse (log_events t.log)))
              (map module_finish one_adder)
              (events-Calm (λ e. undo_event e one_adder) (reverse (log_events t.log))
                (λ e. undone e.module_id e.head e.tail))
              finishes,
        ))
      is_set-initializer

prepares : (t : Tx ℕ) → t.modules ≡ one_adder → Calm (prepare_calls t)
unfolding failed module_prepare_commit
prepares t h =
    subst (λ ms. Calm (map (λ m. module_prepare_commit m (tx_is_irrevocable t)) ms)) (sym h)
      (λ r. refl, tt)

applies : (t : Tx ℕ) → t.modules ≡ one_adder → Calm (apply_calls t)
unfolding failed module_apply
applies t h =
    subst
      (λ ms. Calm (
        map module_apply ms
        ++ (map (λ e. apply_event e ms) (log_events t.log) ++ map module_finish ms)))
      (sym h)
      (
        λ r. refl,
        append-Calm (map (λ e. apply_event e one_adder) (log_events t.log))
            (map module_finish one_adder)
            (events-Calm (λ e. apply_event e one_adder) (log_events t.log)
              (λ e. applied e.module_id e.head e.tail))
            finishes,
      )

runs :
    (t : Tx ℕ) (e : Error) (w : ℕ)
    → t.modules ≡ one_adder
    → is_set e ≡ false
    → (t' : Tx ℕ) × (e' : Error) × (w' : ℕ) × (t'.modules ≡ one_adder)
      × (t'.nretries ≡ t.nretries)
      × (((unwilling (record { tx = some t; error = e }) w
              ≡ (record { tx = some t'; error = e' }, w', go_on))
            × (is_set e' ≡ false))
          ⊎ ((unwilling (record { tx = some t; error = e }) w
                ≡ (record { tx = some t'; error = e' }, w', jump mode_retry))
              × (tx_is_irrevocable t ≡ false)))
runs t e w h clean = (
  t,
  e,
  w + 1,
  h,
  refl,
  elim (Bool-cases (tx_is_irrevocable t)) [
    | inl alone ↦ inl (rw alone refl, clean)
    | inr shared ↦ inr (rw shared refl, shared)
  ],
)

commits :
    (t : Tx ℕ) (e : Error) (w : ℕ)
    → t.modules ≡ one_adder
    → is_set e ≡ false
    → (r : Tx ℕ × Run ℕ) × (tx_commit free_lock t (record { world = w; error = e }) ≡ some r)
      × (failed r.1 ≡ false)
unfolding failed tx_release_irrevocability release_irrevocability os_rwlock_unlock
commits t e w h clean =
    let r : Run ℕ = record { world = w; error = e } in
    let ok = run_calls-Calm (prepare_calls t) r (prepares t h) clean in
    let done = run_calls-Calm (apply_calls t) (run_calls (prepare_calls t) r) (applies t h) ok in
    (
      tx_release_irrevocability free_lock (cleared t)
          (run_calls (apply_calls t) (run_calls (prepare_calls t) r)),
      commit_complete free_lock t r ok done,
      done,
    )

run_transaction_lem_example :
    (f : Front ℕ) × (v : ℕ) × (run_transaction free_lock stopped_clock fresh_thread unwilling none
        11 mode_start
        (record { tx = some (tx_of one_adder); error = error_initializer })
        0
      ≡ some (true, f, v))
run_transaction_lem_example =
    run_transaction_lem free_lock stopped_clock fresh_thread unwilling none one_adder grants stamps
      begins undoes runs commits (tx_of one_adder) error_initializer 0 refl
