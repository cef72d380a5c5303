-- ===== src/Tx/Calls.antt =====
-- src/picotm_tx.c: the loops over modules and events as one sequence of calls that stops at the first
-- error.
use picotm.Prelude.{
  suc, ◌≡◌, refl, Bool, false, inl, inr, some, List, [], ◌∷◌, ◌++◌, length, map, arith, Bool-cases,
  if◌then◌else◌, ◌>>=◌,
}
use picotm.Module.{
  Run, failed, Module, module_begin, module_prepare_commit, module_apply, module_undo,
  module_finish,
}
use picotm.Table.{tabwalk_1}
use picotm.Table.Walk.{one_each, each, passed, tabwalk_1-one_each, tabwalk_2-tabwalk_1}
use picotm.Event.{Event, events_foreach1}
use picotm.Event.Order.{foreach-failed}
use picotm.Tx.{begin_modules, finish_modules, prepare_commit_modules, apply_modules, undo_modules}

module _ {S : Type 0} where
  -- Make the calls in order, up to the first that fails.
  abbrev pub run_calls : List (Run S → Run S) → Run S → Run S
  run_calls [] r = r
  run_calls (c ∷ cs) r = let rest = run_calls cs (c r) in if failed (c r) then c r else rest

  pub run_calls-append :
      (cs ds : List (Run S → Run S)) (r : Run S)
      → failed r ≡ false
      → run_calls (cs ++ ds) r
        ≡ (if failed (run_calls cs r) then run_calls cs r else run_calls ds (run_calls cs r))
  run_calls-append [] ds r h = rw h
  run_calls-append (c ∷ cs) ds r h = elim (Bool-cases (failed (c r))) [
    | inl bad ↦ rw (bad, bad)
    | inr good ↦ rw good (run_calls-append cs ds (c r) good)
  ]

  each-run_calls :
      {A : Type 0} (f : A → Run S → Run S) (xs : List A) (r : Run S)
      → each f xs r ≡ run_calls (map f xs) r
  each-run_calls f [] r = refl
  each-run_calls f (x ∷ xs) r = ground (arith, each-run_calls f xs (f x r))

  pub foreach-run_calls :
      {D : Type 0} (call : Event → D → Run S → Run S) (arg : D) (es : List Event) (r : Run S)
      → failed r ≡ false
      → events_foreach1 es arg call r ≡ run_calls (map (λ e. call e arg) es) r
  unfolding events_foreach1
  foreach-run_calls call arg [] r h = refl
  foreach-run_calls call arg (e ∷ es) r h = elim (Bool-cases (failed (call e arg r))) [
    | inl bad ↦ rw (h, bad) (foreach-failed arg call es (call e arg r) bad)
    | inr good ↦ rw (h, good) (foreach-run_calls call arg es (call e arg r) good)
  ]

  walk-run_calls :
      {A : Type 0} (f : A → Run S → Run S) (xs : List A) (r : Run S)
      → (tabwalk_1 (suc (length xs)) xs (one_each f) r >>= λ walked. some walked.1)
        ≡ some (run_calls (map f xs) r)
  walk-run_calls f xs r =
      rw (tabwalk_1-one_each f (suc (length xs)) xs r (omega arith), each-run_calls f xs r)

  pub finish_modules-run_calls :
      (ms : List (Module S)) (r : Run S)
      → finish_modules ms r ≡ some (run_calls (map module_finish ms) r)
  unfolding finish_modules
  finish_modules-run_calls ms r = walk-run_calls module_finish ms r

  pub apply_modules-run_calls :
      (ms : List (Module S)) (r : Run S)
      → apply_modules ms r ≡ some (run_calls (map module_apply ms) r)
  unfolding apply_modules
  apply_modules-run_calls ms r = walk-run_calls module_apply ms r

  pub undo_modules-run_calls :
      (ms : List (Module S)) (r : Run S)
      → undo_modules ms r ≡ some (run_calls (map module_undo ms) r)
  unfolding undo_modules
  undo_modules-run_calls ms r = walk-run_calls module_undo ms r

  pub prepare_commit_modules-run_calls :
      (ms : List (Module S)) (b : Bool) (r : Run S)
      → prepare_commit_modules ms b r ≡ some (run_calls (map (λ m. module_prepare_commit m b) ms) r)
  unfolding prepare_commit_modules
  prepare_commit_modules-run_calls ms b r =
      rw tabwalk_2-tabwalk_1 (walk-run_calls (λ m. module_prepare_commit m b) ms r)

  pub begin_modules-run_calls :
      (ms : List (Module S)) (r : Run S)
      → begin_modules ms r ≡ some (passed module_begin ms r, run_calls (map module_begin ms) r)
  unfolding begin_modules
  begin_modules-run_calls ms r = rw (
    tabwalk_1-one_each module_begin (suc (length ms)) ms r (omega arith),
    each-run_calls module_begin ms r,
  )
