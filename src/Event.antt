-- ===== src/Event.antt =====
-- src/picotm_event.h and src/picotm_event.c: events of a transaction, and the loops over them.
--
-- The events between `beg` and `end` are a list. The reverse loop counts its position down from the
-- end, as the pointer does.
pub mod Order
use picotm.Prelude.{
  ℕ, zero, suc, ◌%◌, ◌^◌, Option, none, some, List, [], ◌∷◌, length, get_elem?, if◌then◌else◌,
}
use picotm.Module.{Run, failed}

pub record Event : Type 0 where
  pub module_id : ℕ
  pub head : ℕ
  pub tail : ℕ

-- PICOTM_EVENT_INITIALIZER: the fields `module` and `head` are of type uint16_t.
unfoldable pub event_initializer : ℕ → ℕ → ℕ → Event
event_initializer id head tail = record {
  module_id = id % 2 ^ 16;
  head = head % 2 ^ 16;
  tail = tail;
}

module _ {S D : Type 0} where
  unfoldable pub events_foreach1 : List Event → D → (Event → D → Run S → Run S) → Run S → Run S
  events_foreach1 [] arg call r = r
  events_foreach1 (e ∷ es) arg call r =
      if failed r then r else events_foreach1 es arg call (call e arg r)

  -- The position is below the end, so that an event stands there.
  abbrev pub call_at : Option Event → D → (Event → D → Run S → Run S) → Run S → Run S
  call_at none arg call r = r
  call_at (some e) arg call r = call e arg r

  rev_foreach_from : ℕ → List Event → D → (Event → D → Run S → Run S) → Run S → Run S
  rev_foreach_from zero es arg call r = r
  rev_foreach_from (suc pos) es arg call r =
      let rest = rev_foreach_from pos es arg call (call_at (get_elem? es pos) arg call r) in
      if failed r then r else rest

  unfoldable pub events_rev_foreach1 : List Event → D → (Event → D → Run S → Run S) → Run S → Run S
  unfolding rev_foreach_from
  events_rev_foreach1 es arg call r = rev_foreach_from (length es) es arg call r
