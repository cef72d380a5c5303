-- ===== src/Tests/Data.antt =====
-- A transaction over counters: two modules whose events add to one number.
use picotm.Prelude.{ℕ, ◌+◌, ◌-◌, none, some, List, [], ◌∷◌}
use picotm.Prelude.Int.{pos}
use picotm.Error.{error_initializer, set_errno}
use picotm.Module.{Run, ModuleOps, Module}
use picotm.Event.{Event}
use picotm.Timespec.{Timespec}
use picotm.Os.{PthreadRwlock, Clock}
use picotm.LockOwner.{LockOwner}
use picotm.Tx.{Tx, revocable}

abbrev pub no_error : ℕ → Run ℕ
no_error n = record { world = n; error = error_initializer }

abbrev pub errno_error : ℕ → Run ℕ
errno_error n = record { world = n; error = set_errno error_initializer 5 }

abbrev pub fail : ℕ → Run ℕ → Run ℕ
fail d r = record r { error = set_errno r.error 5 }

-- An event adds its second number, and its undo takes that off.
abbrev pub adder : ModuleOps ℕ
adder = record {
  release = none;
  begin = none;
  prepare_commit = none;
  apply = none;
  undo = none;
  apply_event = some (λ head tail d r. record r { world = r.world + tail });
  undo_event = some (λ head tail d r. record r { world = r.world - tail });
  finish = some (λ d r. record r { world = r.world + d });
}

abbrev pub breaking : ModuleOps ℕ
breaking = record adder { apply = some fail }

abbrev pub unable : ModuleOps ℕ
unable = record adder { begin = some fail }

abbrev pub free_lock : PthreadRwlock ℕ
free_lock = record { rdlock = λ s. (0, s); wrlock = λ s. (0, s); unlock = λ s. s }

abbrev pub epoch : Timespec
epoch = record { tv_sec = pos 0; tv_nsec = 0 }

abbrev pub stopped_clock : Clock ℕ
stopped_clock = record { gettime = λ s. (some epoch, 0, s) }

abbrev pub two_events : List Event
two_events =
    record { module_id = 0; head = 0; tail = 3 } ∷ record { module_id = 1; head = 0; tail = 4 } ∷ []

abbrev pub owner : LockOwner
owner = record { address = 9; flags = 1; next = none; timestamp = epoch }

abbrev pub tx_of : List (Module ℕ) → Tx ℕ
tx_of ms = record {
  env = none;
  log = record { eventtab = some 1; cells = two_events; eventtablen = 2; eventtabsiz = 2 };
  mode = revocable;
  nretries = 9;
  lm = record { lo = none; owners = []; exclusive_lo = none };
  lo = owner;
  modules = ms;
}

abbrev pub module_of : ModuleOps ℕ → ℕ → Module ℕ
module_of ops d = record { ops = ops; data_ptr = d }

abbrev pub adders : Tx ℕ
adders = tx_of (module_of adder 10 ∷ module_of adder 20 ∷ [])

abbrev pub broken_tx : Tx ℕ
broken_tx = tx_of (module_of adder 10 ∷ module_of breaking 20 ∷ [])

abbrev pub unable_tx : Tx ℕ
unable_tx = tx_of (module_of adder 10 ∷ module_of unable 20 ∷ [])
