-- ===== src/Log/Order.antt =====
-- src/picotm_log.c: the log keeps the events in the order in which they were appended.
use picotm.Prelude.{
  ℕ, zero, suc, ◌+◌, ◌≤◌, ◌≡◌, ◌⊎◌, refl, Bool, true, false, Option, List, [], ◌∷◌, ◌++◌, take,
  length, arith,
}
use picotm.Error.{Error, is_set}
use picotm.Event.{Event}
use picotm.Log.{Log, log_init, log_events, log_clear, log_append, put, Appended, log_end_alloc}

-- The valid events have been written, and lie in the allocated table.
pub record IsValid (self : Log) : Type 0 where
  pub written : self.eventtablen ≤ length self.cells
  pub allocated : self.eventtablen ≤ self.eventtabsiz

pub log_init-IsValid : IsValid log_init
unfolding log_init
log_init-IsValid = omega arith

pub log_clear-IsValid : (self : Log) → IsValid (log_clear self)
unfolding log_clear
log_clear-IsValid self = omega arith

take-put :
    (cells : List Event) (i : ℕ) (e : Event)
    → i ≤ length cells
    → take (i + 1) (put cells i e) ≡ take i cells ++ e ∷ []
unfolding put
take-put [] zero e h = refl
take-put [] (suc i) e h = elim h [ ]
take-put (x ∷ xs) zero e h = ground arith
take-put (x ∷ xs) (suc i) e h = ground (arith, take-put xs i e)

length-put :
    (cells : List Event) (i : ℕ) (e : Event) → i ≤ length cells → i + 1 ≤ length (put cells i e)
unfolding put
length-put [] i e h = omega arith
length-put (x ∷ xs) zero e h = omega arith
length-put (x ∷ xs) (suc i) e h = omega (arith, length-put xs i e)

module _ (realloc : Option ℕ → ℕ → Option ℕ × ℕ) (s_lowmem : Bool) (errno : ℕ) (self : Log)
    (event : Event) (e : Error) where
  -- The room for one more event is made without a change to the events.
  record Room (a : Appended) : Type 0 where
    cells : a.log.cells ≡ self.cells
    len : a.log.eventtablen ≡ self.eventtablen
    grown : self.eventtabsiz ≤ a.log.eventtabsiz
    room : is_set a.error ≡ false → self.eventtablen + 1 ≤ a.log.eventtabsiz
    kept : is_set a.error ≡ true → a.log ≡ self

  log_end_alloc-Room : Room (log_end_alloc realloc s_lowmem errno self e)
  unfolding log_end_alloc
  log_end_alloc-Room = ground arith

  -- An append keeps the log valid. If it reports no error, the event stands behind those of the log; if it
  -- reports one, the log is as it was in all its fields: the pointer to its table, the cells, the
  -- number of events and the size.
  pub log_append_lem :
      IsValid self
      → IsValid (log_append realloc s_lowmem errno self event e).log
        × (((is_set (log_append realloc s_lowmem errno self event e).error ≡ true)
              × ((log_append realloc s_lowmem errno self event e).log ≡ self))
            ⊎ ((is_set (log_append realloc s_lowmem errno self event e).error ≡ false)
                × (log_events (log_append realloc s_lowmem errno self event e).log
                    ≡ log_events self ++ event ∷ [])))
  unfolding log_append log_events
  log_append_lem v = ground (
    arith,
    log_end_alloc-Room,
    take-put self.cells self.eventtablen event,
    length-put self.cells self.eventtablen event,
  )
