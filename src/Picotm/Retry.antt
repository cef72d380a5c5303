-- ===== src/Picotm/Retry.antt =====
-- src/picotm.c: a transaction that retries.
use picotm.Prelude.{
  ℕ, zero, suc, ◌+◌, ◌%◌, ◌^◌, ◌≡◌, ◌⊎◌, inl, inr, refl, ◌∙◌, sym, ap, subst, arith, Bool, true,
  false, true≢false, not, Option, some, List, map, if◌then◌else◌, if_false, ◌>>=◌,
}
use picotm.Error.{Error, is_set, is_set-initializer, error_initializer}
use picotm.Module.{Run, Module, failed, module_begin}
use picotm.LockManager.{release_irrevocability}
use picotm.Os.{os_rwlock_unlock, PthreadRwlock, Clock}
use picotm.Tx.{
  Tx, TxMode, tx_commit, tx_rollback, tx_release_irrevocability, tx_is_irrevocable, effective_mode,
  tx_nretries_limit,
}
use picotm.Tx.Calls.{run_calls}
use picotm.Tx.Commit.{cleared}
use picotm.Tx.Begin.{granted, stamped, started, begin_complete}
use picotm.Tx.Rollback.{undo_calls, module_undo_calls, tx_rollback_lem}
use picotm.Picotm.{
  Front, restart_tx_from_error, Mode, mode_start, mode_retry, Jump, go_on, jump, tx_mode, is_start,
  picotm_begin, start_tx, start_got, begun_with, not_entered, retry_tx, rolled_back_then,
  picotm_commit, commit_got, committed_with, run_transaction, body_next, commit_next,
}

module _ {S : Type 0} (lock : PthreadRwlock S) (clock : Clock S)
    (init_thread : Run S → Tx S × Run S) (body : Front S → S → Front S × S × Jump) (env : Option ℕ)
    (ms : List (Module S))
    (grants : (t : Tx S) (mode : TxMode) (is_retry : Bool) (w : S)
      → t.modules ≡ ms
      → failed
          (granted lock clock t mode is_retry env
            (record { world = w; error = error_initializer })).1
        ≡ false)
    (stamps : (t : Tx S) (mode : TxMode) (is_retry : Bool) (w : S)
      → t.modules ≡ ms
      → failed
          (stamped lock clock t mode is_retry env
            (record { world = w; error = error_initializer })).1
        ≡ false)
    (begins : (r : Run S)
      → failed r ≡ false
      → failed (run_calls (map module_begin ms) r) ≡ false) where
  -- A begin with its modules enters, and counts the retries.
  entered_lem :
      (mode : Mode) (t : Tx S) (w : S)
      → t.modules ≡ ms
      → (w' : S) × (e : Error) × (t' : Tx S) × (start_tx lock clock init_thread mode env (some t) w
          ≡ some
              (record { entered = true; front = record { tx = some t'; error = e }; world = w' }))
        × (is_set e ≡ false)
        × (t'.modules ≡ ms)
        × (t'.nretries ≡ (if not (is_start mode) then (t.nretries + 1) % 2 ^ 64 else 0))
        × (t'.mode ≡ effective_mode (tx_mode mode) t'.nretries)
  unfolding start_tx start_got begun_with failed
  entered_lem mode t w h = (
    run.world,
    run.error,
    started lock clock t (tx_mode mode) (not (is_start mode)) env (from w),
    if_false (is_set error_initializer)
          (some (not_entered lock clock init_thread (some t) error_initializer w)) _
          is_set-initializer
        ∙ ap
            (λ (o : Option (Tx S × Run S)).
              o >>= λ begun. some (begun_with lock clock init_thread begun))
            (begin_complete lock clock t (tx_mode mode) (not (is_start mode)) env (from w)
              (grants t (tx_mode mode) (not (is_start mode)) w h)
              (stamps t (tx_mode mode) (not (is_start mode)) w h) begun)
        ∙ ap
            (λ b. some (record {
              entered = not b;
              front = record {
                tx = some (started lock clock t (tx_mode mode) (not (is_start mode)) env (from w));
                error = run.error;
              };
              world = run.world;
            }))
            begun,
    begun,
    h,
    refl,
    refl,
  )
    where
      from : S → Run S
      from w = record { world = w; error = error_initializer }

      stamped_run : Run S
      stamped_run = (stamped lock clock t (tx_mode mode) (not (is_start mode)) env (from w)).1

      run : Run S
      run = run_calls (map module_begin t.modules) stamped_run

      begun : failed run ≡ false
      begun =
          subst (λ xs. failed (run_calls (map module_begin xs) stamped_run) ≡ false) (sym h)
            (begins stamped_run (stamps t (tx_mode mode) (not (is_start mode)) w h))

  module _
      (undoes : (t : Tx S) (w : S)
        → t.modules ≡ ms
        → failed (run_calls (undo_calls t) (record { world = w; error = error_initializer }))
          ≡ false) where
    release_keeps :
        (b : Bool) (t : Tx S) (r : Run S)
        → ((tx_release_irrevocability lock (if b then t else cleared t) r).0.modules ≡ t.modules)
          × ((tx_release_irrevocability lock (if b then t else cleared t) r).0.nretries
              ≡ t.nretries)
          × (failed (tx_release_irrevocability lock (if b then t else cleared t) r).1 ≡ failed r)
    unfolding tx_release_irrevocability release_irrevocability os_rwlock_unlock failed
    release_keeps true t r = (refl, refl, refl)
    release_keeps false t r = (refl, refl, refl)

    -- A retry rolls the transaction rolled_back, and begins it with its modules and one retry more.
    retry_lem :
        (t : Tx S) (e : Error) (w : S)
        → t.modules ≡ ms
        → (w' : S) × (e' : Error) × (t' : Tx S) × (picotm_begin lock clock init_thread mode_retry
              env
              (record { tx = some t; error = e })
              w
            ≡ some (record {
              entered = true;
              front = record { tx = some t'; error = e' };
              world = w';
            }))
          × (is_set e' ≡ false)
          × (t'.modules ≡ ms)
          × (t'.nretries ≡ (t.nretries + 1) % 2 ^ 64)
          × (t'.mode ≡ effective_mode (tx_mode mode_retry) t'.nretries)
    unfolding picotm_begin retry_tx rolled_back_then failed
    retry_lem t e w h =
        let (w', e', t', eq, ok, keeps, count, mode) =
          entered_lem mode_retry rolled_back.0 rolled_back.1.world (same.0 ∙ h) in
        (
          w',
          e',
          t',
          ap (λ o. o >>= rolled_back_then lock clock init_thread mode_retry env) rolled
              ∙ if_false (failed rolled_back.1)
                  (some (
                    not_entered lock clock init_thread (some rolled_back.0) rolled_back.1.error
                      rolled_back.1.world))
                  _ fine
              ∙ eq,
          ok,
          keeps,
          count ∙ ap (λ n. (n + 1) % 2 ^ 64) same.1,
          mode,
        )
      where
        from : Run S
        from = record { world = w; error = error_initializer }

        undone : Run S
        undone = run_calls (undo_calls t) from

        halted : Bool
        halted = failed (run_calls (module_undo_calls t) from)

        rolled_back : Tx S × Run S
        rolled_back = tx_release_irrevocability lock (if halted then t else cleared t) undone

        rolled : tx_rollback lock t from ≡ some rolled_back
        rolled =
            tx_rollback_lem lock t from is_set-initializer
            ∙ ap (λ r. some (tx_release_irrevocability lock (if halted then t else cleared t) r))
                (if_false (failed undone) _ _ (undoes t w h))

        same :
            (rolled_back.0.modules ≡ t.modules)
            × (rolled_back.0.nretries ≡ t.nretries)
            × (failed rolled_back.1 ≡ failed undone)
        same = release_keeps halted t undone

        fine : failed rolled_back.1 ≡ false
        fine = same.2 ∙ undoes t w h

    module _
        (runs : (t : Tx S) (e : Error) (w : S)
          → t.modules ≡ ms
          → is_set e ≡ false
          → (t' : Tx S) × (e' : Error) × (w' : S) × (t'.modules ≡ ms)
            × (t'.nretries ≡ t.nretries)
            × (((body (record { tx = some t; error = e }) w
                    ≡ (record { tx = some t'; error = e' }, w', go_on))
                  × (is_set e' ≡ false))
                ⊎ ((body (record { tx = some t; error = e }) w
                      ≡ (record { tx = some t'; error = e' }, w', jump mode_retry))
                    × (tx_is_irrevocable t ≡ false))))
        (commits : (t : Tx S) (e : Error) (w : S)
          → t.modules ≡ ms
          → is_set e ≡ false
          → (r : Tx S × Run S) × (tx_commit lock t (record { world = w; error = e }) ≡ some r)
            × (failed r.1 ≡ false)) where
      abbrev Commits : Option (Bool × Front S × S) → Type 0
      Commits o = (f : Front S) × (w : S) × (o ≡ some (true, f, w))

      abbrev again : ℕ → Mode → Front S → S → Option (Bool × Front S × S)
      again fuel mode f w = run_transaction lock clock init_thread body env fuel mode f w

      commit_lem :
          (fuel : ℕ) (t : Tx S) (e : Error) (w : S)
          → t.modules ≡ ms
          → is_set e ≡ false
          → Commits (
              body_next lock clock init_thread body env
                (again fuel)
                (record { tx = some t; error = e }, w, go_on))
      unfolding body_next picotm_commit commit_got committed_with commit_next
      commit_lem fuel t e w h ok =
          let (r, eq, fine) = commits t e w h ok in
          (
            record { tx = some r.0; error = r.1.error },
            r.1.world,
            ap
                  (λ o.
                    (o >>= λ done. some (committed_with lock clock init_thread done))
                    >>= commit_next lock clock init_thread body env (again fuel))
                  eq
                ∙ ap
                    (λ j.
                      commit_next lock clock init_thread body env (again fuel)
                        (record { tx = some r.0; error = r.1.error }, r.1.world, j))
                    (if_false (failed r.1) (restart_tx_from_error r.1.error) go_on fine),
          )

      -- The body goes on to a commit, or it retries a revocable transaction.
      body_lem :
          (fuel : ℕ) (t : Tx S) (e : Error) (w : S)
          → t.modules ≡ ms
          → is_set e ≡ false
          → ((t' : Tx S) (e' : Error) (w' : S)
              → t'.modules ≡ ms
              → t'.nretries ≡ t.nretries
              → tx_is_irrevocable t ≡ false
              → Commits (again fuel mode_retry (record { tx = some t'; error = e' }) w'))
          → Commits (
              body_next lock clock init_thread body env
                (again fuel)
                (body (record { tx = some t; error = e }) w))
      unfolding body_next
      body_lem fuel t e w h ok later =
          let (t', e', w', keeps, count, outcome) = runs t e w h ok in
          elim outcome [
            | inl go ↦
                subst (λ x. Commits (body_next lock clock init_thread body env (again fuel) x))
                  (sym go.0) (commit_lem fuel t' e' w' keeps go.1)
            | inr rolled_back ↦
                subst (λ x. Commits (body_next lock clock init_thread body env (again fuel) x))
                  (sym rolled_back.0) (later t' e' w' keeps count rolled_back.1)
          ]

      begun_lem :
          (fuel : ℕ) (mode : Mode) (f : Front S) (w : S) (t : Tx S) (e : Error) (w' : S)
          → picotm_begin lock clock init_thread mode env f w
            ≡ some
                (record { entered = true; front = record { tx = some t; error = e }; world = w' })
          → Commits (
              body_next lock clock init_thread body env
                (again fuel)
                (body (record { tx = some t; error = e }) w'))
          → Commits (again (suc fuel) mode f w)
      unfolding run_transaction
      begun_lem fuel mode f w t e w' eq (g, v, done) = (g, v, rw eq done)

      -- The last retry is irrevocable.
      last :
          (t : Tx S)
          → t.nretries ≡ tx_nretries_limit
          → t.mode ≡ effective_mode (tx_mode mode_retry) t.nretries
          → tx_is_irrevocable t ≡ true
      unfolding tx_is_irrevocable effective_mode
      last t limit mode = ground arith

      retries_lem :
          (n : ℕ) (t : Tx S) (e : Error) (w : S)
          → t.modules ≡ ms
          → t.nretries + suc n ≡ tx_nretries_limit
          → Commits (again (suc n) mode_retry (record { tx = some t; error = e }) w)
      retries_lem zero t e w h left =
          let (w', e', t', eq, ok, keeps, count, mode) = retry_lem t e w h in
          begun_lem zero mode_retry (record { tx = some t; error = e }) w t' e' w' eq
            (body_lem zero t' e' w' keeps ok (λ t'' e'' w'' h'' same free.
              absurd (true≢false (sym (last t' (count ∙ omega arith) mode) ∙ free))))
      retries_lem (suc n) t e w h left =
          let (w', e', t', eq, ok, keeps, count, mode) = retry_lem t e w h in
          begun_lem (suc n) mode_retry (record { tx = some t; error = e }) w t' e' w' eq
            (body_lem (suc n) t' e' w' keeps ok
              (λ t'' e'' w'' h'' same free. retries_lem n t'' e'' w'' h'' (omega arith)))

      -- Let the locks, the clock and the modules report no error; let the body, and its commit, keep the modules
      -- and the count of the retries; and let the body go on to its commit whenever the transaction is
      -- irrevocable, while it may ask for a retry as often as it is revocable. Then a transaction that starts
      -- is committed, after at most 11 executions of its body.
      pub run_transaction_lem :
          (t : Tx S) (e : Error) (w : S)
          → t.modules ≡ ms
          → (f : Front S) × (v : S) × (run_transaction lock clock init_thread body env 11 mode_start
                (record { tx = some t; error = e })
                w
              ≡ some (true, f, v))
      unfolding picotm_begin
      run_transaction_lem t e w h =
          let (w', e', t', eq, ok, keeps, count, mode) = entered_lem mode_start t w h in
          begun_lem 10 mode_start (record { tx = some t; error = e }) w t' e' w' eq
            (body_lem 10 t' e' w' keeps ok
              (λ t'' e'' w'' h'' same free. retries_lem 9 t'' e'' w'' h'' (omega arith)))
