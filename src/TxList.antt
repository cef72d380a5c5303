-- ===== src/TxList.antt =====
-- modules/txlib/src/txlist_entry.c and txlist_state.c: doubly-linked lists of entries.
--
-- An entry is its address, and 0 is the null pointer. A store has the two pointers of every entry, and the
-- head of a list is one of its entries. The two functions that walk a list take fuel, and answer `none` when
-- it runs out.
pub mod Shape
pub mod Links
pub mod Erase
pub mod Walk
pub mod Transaction
pub mod Tidy
pub mod Session
pub mod Moves
pub mod Steps
pub mod Operations
pub mod Rollback
use picotm.Prelude.{
  ℕ, zero, suc, ◌+◌, Bool, not, Option, none, some, List, [], ◌∷◌, ◌==◌, if◌then◌else◌, ◌>>=◌,
}

pub record Store : Type 0 where
  pub next : ℕ → ℕ
  pub prev : ℕ → ℕ

abbrev pub write : (ℕ → ℕ) → ℕ → ℕ → ℕ → ℕ
write f a v x = if x == a then v else f x

abbrev pub write_next : ℕ → ℕ → Store → Store
write_next a v s = record s { next = write s.next a v }

abbrev pub write_prev : ℕ → ℕ → Store → Store
write_prev a v s = record s { prev = write s.prev a v }

unfoldable pub entry_init : ℕ → Store → Store
entry_init self s = write_prev self 0 (write_next self 0 s)

unfoldable pub entry_init_head : ℕ → Store → Store
entry_init_head self s = write_prev self self (write_next self self s)

abbrev pub entry_is_enqueued : ℕ → Store → Bool
entry_is_enqueued self s = not (s.next self == 0)

unfoldable pub entry_insert : ℕ → ℕ → Store → Store
entry_insert self next s =
    let linked = write_prev self (s.prev next) (write_next self next s) in
    write_prev next self (write_next (linked.prev next) self linked)

unfoldable pub entry_erase : ℕ → Store → Store
entry_erase self s =
    let before = write_prev (s.next self) (s.prev self) s in
    let after = write_next (before.prev self) (before.next self) before in
    write_prev self 0 (write_next self 0 after)

unfoldable pub distance_from : ℕ → ℕ → ℕ → ℕ → Store → Option ℕ
distance_from zero n beg end s = none
distance_from (suc fuel) n beg end s =
    let rest = distance_from fuel (n + 1) (s.next beg) end s in if beg == end then some n else rest

unfoldable pub entry_distance : ℕ → ℕ → ℕ → Store → Option ℕ
entry_distance fuel beg end s = distance_from fuel 0 beg end s

-- A list is the address of its head.
abbrev pub list_begin : ℕ → Store → ℕ
list_begin head s = s.next head

abbrev pub list_end : ℕ → ℕ
list_end head = head

unfoldable pub list_size : ℕ → ℕ → Store → Option ℕ
unfolding entry_distance
list_size fuel head s = entry_distance fuel (list_begin head s) (list_end head) s

unfoldable pub list_is_empty : ℕ → Store → Bool
list_is_empty head s = list_begin head s == list_end head

unfoldable pub list_front : ℕ → Store → ℕ
list_front head s = list_begin head s

unfoldable pub list_back : ℕ → Store → ℕ
list_back head s = s.prev (list_end head)

-- txlist_state_insert() and txlist_state_erase() are the functions of the entries.
abbrev pub list_insert : ℕ → ℕ → Store → Store
list_insert entry position s = entry_insert entry position s

abbrev pub list_erase : ℕ → Store → Store
list_erase entry s = entry_erase entry s

-- The result is the store with what `uninit` has been called for, the first call first.
unfoldable pub list_clear_and_uninit : ℕ → ℕ → Store → Option (Store × List ℕ)
list_clear_and_uninit zero head s = none
list_clear_and_uninit (suc fuel) head s =
    let beg = list_begin head s in
    let rest = list_clear_and_uninit fuel head (list_erase beg s) in
    if beg == list_end head then some (s, []) else (rest >>= λ r. some (r.0, beg ∷ r.1))
