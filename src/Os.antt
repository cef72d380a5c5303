-- ===== src/Os.antt =====
-- src/picotm_os_rwlock.c and the clock of src/picotm_os_timespec.c: the wrappers of the calls of the
-- operating system, which are parameters.
--
-- A call of pthread answers 0, or an errno code, and the new state of everything outside. Unlocking a
-- lock that is held succeeds. The Mach variant of the clock is not modelled.
use picotm.Prelude.{ℕ, Option, none, some, ◌==◌, if◌then◌else◌}
use picotm.Error.{set_errno}
use picotm.Module.{Run}
use picotm.Timespec.{Timespec}

-- One instance of pthread_rwlock_t.
pub record PthreadRwlock (S : Type 0) : Type 0 where
  pub rdlock : S → ℕ × S
  pub wrlock : S → ℕ × S
  pub unlock : S → S

-- clock_gettime(): a time, or none and errno.
pub record Clock (S : Type 0) : Type 0 where
  pub gettime : S → Option Timespec × ℕ × S

module _ {S : Type 0} where
  unfoldable pub report : Run S → ℕ × S → Run S
  report r (err, s) = record {
    world = s;
    error = if err == 0 then r.error else set_errno r.error err;
  }

  unfoldable pub os_rwlock_rdlock : PthreadRwlock S → Run S → Run S
  unfolding report
  os_rwlock_rdlock l r = report r (l.rdlock r.world)

  unfoldable pub os_rwlock_wrlock : PthreadRwlock S → Run S → Run S
  unfolding report
  os_rwlock_wrlock l r = report r (l.wrlock r.world)

  unfoldable pub os_rwlock_unlock : PthreadRwlock S → Run S → Run S
  os_rwlock_unlock l r = record r { world = l.unlock r.world }

  report_time : Run S → Option Timespec × ℕ × S → Option Timespec × Run S
  report_time r (some t, err, s) = (some t, record r { world = s })
  report_time r (none, err, s) = (none, record { world = s; error = set_errno r.error err })

  -- picotm_os_get_timespec(); no time is written on an error.
  unfoldable pub os_get_timespec : Clock S → Run S → Option Timespec × Run S
  unfolding report_time
  os_get_timespec c r = report_time r (c.gettime r.world)
