-- ===== src/Log.antt =====
-- src/picotm_log.h and src/picotm_log.c: the log of a transaction's events.
--
-- `cells` are the cells of the table that have been written; a resize keeps them, as realloc() does.
pub mod Order
use picotm.Prelude.{
  ℕ, zero, suc, ◌+◌, ◌*◌, ◌≤◌, Bool, Option, none, some, List, [], ◌∷◌, take, length, leb,
  if◌then◌else◌,
}
use picotm.Error.{Error, is_set}
use picotm.Event.{Event}
use picotm.Table.{tabresize, Resized}

pub record Log : Type 0 where
  pub eventtab : Option ℕ
  pub cells : List Event
  pub eventtablen : ℕ
  pub eventtabsiz : ℕ

unfoldable pub log_init : Log
log_init = record { eventtab = none; cells = []; eventtablen = 0; eventtabsiz = 0 }

-- The events from picotm_log_begin() up to picotm_log_end().
unfoldable pub log_events : Log → List Event
log_events self = take self.eventtablen self.cells

unfoldable pub log_clear : Log → Log
log_clear self = record self { eventtablen = 0 }

-- A write to the cell at a position; the first position behind the written cells extends them.
unfoldable pub put : List Event → ℕ → Event → List Event
put [] i e = e ∷ []
put (x ∷ xs) zero e = e ∷ xs
put (x ∷ xs) (suc i) e = x ∷ put xs i e

-- sizeof(struct picotm_event)
abbrev sizeof_event : ℕ
sizeof_event = 16

pub record Appended : Type 0 where
  pub s_lowmem : Bool
  pub log : Log
  pub error : Error

module _ (realloc : Option ℕ → ℕ → Option ℕ × ℕ) where
  unfoldable pub log_end_alloc : Bool → ℕ → Log → Error → Appended
  log_end_alloc s_lowmem errno self e =
      let neweventtabsiz = self.eventtablen + 1 in
      let t =
        tabresize realloc s_lowmem errno self.eventtab self.eventtabsiz neweventtabsiz sizeof_event
          e in
      if leb neweventtabsiz self.eventtabsiz
      then record { s_lowmem = s_lowmem; log = self; error = e }
      else if is_set t.error
      then record { s_lowmem = t.s_lowmem; log = self; error = t.error }
      else (record {
        s_lowmem = t.s_lowmem;
        log = record self { eventtab = t.mem; eventtabsiz = neweventtabsiz };
        error = t.error;
      })

  unfoldable pub log_end_seal : Log → Log
  log_end_seal self = record self { eventtablen = self.eventtablen + 1 }

  unfoldable pub log_append : Bool → ℕ → Log → Event → Error → Appended
  unfolding log_end_seal
  log_append s_lowmem errno self event e =
      let a = log_end_alloc s_lowmem errno self e in
      if is_set a.error then a else (record a {
        log = log_end_seal (record a.log { cells = put a.log.cells a.log.eventtablen event });
      })
