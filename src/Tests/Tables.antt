-- ===== src/Tests/Tables.antt =====
-- Runs of the arrays, the log, the loops over events, times and the registry of lock owners.
use picotm.Prelude.{
  ℕ, ◌+◌, ◌*◌, ◌≡◌, ◌⊎◌, true, false, refl, ap, arith, false, Option, some, [], ◌∷◌, ◌++◌, reverse,
  if◌then◌else◌, ◌==◌, ltb,
}
use picotm.Prelude.Int.{pos, ◌-ℤ◌}
use picotm.Error.{error_initializer, is_set, set_errno}
use picotm.Module.{Run, failed}
use picotm.Table.{tabwalk_1}
use picotm.Table.Walk.{one_each, passed, each, tabwalk_1-one_each}
use picotm.Event.{Event, events_foreach1, events_rev_foreach1}
use picotm.Event.Order.{rev_foreach-foreach}
use picotm.Log.{log_events, log_append}
use picotm.Log.Order.{IsValid, log_append_lem}
use picotm.Timespec.{Timespec, sub_timespec}
use picotm.Timespec.Arithmetic.{IsNormal, plus, minus, sub_timespec_lem}
use picotm.Tests.Data.{no_error, fail, two_events, adders}

abbrev realloc : Option ℕ → ℕ → Option ℕ × ℕ
realloc base size = (some 1, 0)

-- Stops at the third number.
abbrev sum_up : ℕ → Run ℕ → Run ℕ
sum_up x r = if x == 3 then fail 0 r else record r { world = r.world + x }

tabwalk_1-one_each_example :
    tabwalk_1 5 (1 ∷ 2 ∷ 3 ∷ 4 ∷ []) (one_each sum_up) (no_error 0)
    ≡ some (
      passed sum_up (1 ∷ 2 ∷ 3 ∷ 4 ∷ []) (no_error 0),
      each sum_up (1 ∷ 2 ∷ 3 ∷ 4 ∷ []) (no_error 0),
    )
tabwalk_1-one_each_example =
    tabwalk_1-one_each sum_up 5 (1 ∷ 2 ∷ 3 ∷ 4 ∷ []) (no_error 0) (omega arith)

sum_up-passed : passed sum_up (1 ∷ 2 ∷ 3 ∷ 4 ∷ []) (no_error 0) ≡ 2
unfolding failed is_set set_errno
sum_up-passed = refl

abbrev note : Event → ℕ → Run ℕ → Run ℕ
note ev factor r = record r { world = r.world * factor + ev.tail }

rev_foreach-foreach_example :
    events_rev_foreach1 two_events 10 note (no_error 0)
    ≡ events_foreach1 (reverse two_events) 10 note (no_error 0)
rev_foreach-foreach_example = rev_foreach-foreach 10 note two_events (no_error 0)

backwards : (events_rev_foreach1 two_events 10 note (no_error 0)).world ≡ 43
unfolding events_foreach1 failed is_set
backwards = ap (λ r. r.world) (rev_foreach-foreach 10 note two_events (no_error 0))

abbrev third : Event
third = record { module_id = 0; head = 1; tail = 7 }

adders_log-IsValid : IsValid adders.log
adders_log-IsValid = omega arith

log_append_lem_example :
    IsValid (log_append realloc false 0 adders.log third error_initializer).log
    × (((is_set (log_append realloc false 0 adders.log third error_initializer).error ≡ true)
          × ((log_append realloc false 0 adders.log third error_initializer).log ≡ adders.log))
        ⊎ ((is_set (log_append realloc false 0 adders.log third error_initializer).error ≡ false)
            × (log_events (log_append realloc false 0 adders.log third error_initializer).log
                ≡ log_events adders.log ++ third ∷ [])))
log_append_lem_example =
    log_append_lem realloc false 0 adders.log third error_initializer adders_log-IsValid

abbrev late : Timespec
late = record { tv_sec = pos 5; tv_nsec = 200000000 }

abbrev early : Timespec
early = record { tv_sec = pos 3; tv_nsec = 900000000 }

-- 5.2 s - 3.9 s is 1.3 s, and the code answers 3.3 s.
sub_timespec_lem_example :
    IsNormal (sub_timespec late early)
    × (plus (sub_timespec late early) + minus late + plus early
        ≡ minus (sub_timespec late early)
          + plus late
          + minus early
          + (if ltb 200000000 900000000 then 2000000000 else 0))
sub_timespec_lem_example = sub_timespec_lem late early (omega arith) (omega arith)

late-early : sub_timespec late early ≡ record { tv_sec = pos 3; tv_nsec = 300000000 }
unfolding sub_timespec ◌-ℤ◌
late-early = refl
