-- ===== src/Fildes.antt =====
-- modules/libc/src/fildes: transactional input and output on files. This file is range.c, ioop.c and
-- iooptab.c: the pending operations of a transaction on a file.
--
-- Offsets, sizes and lengths are words of 64 bits, which the comparisons of off_t read as signed. A buffer
-- is a function from offsets to bytes, and a table the list of its elements in use, without its allocated
-- size. The argument `resize` is the error after picotm_tabresize().
pub mod Ranges
pub mod Overlay
pub mod Seekbuf
pub mod Regfile
pub mod Calls
pub mod Pending
pub mod Reads
pub mod Writes
pub mod Accepted
pub mod Commit
pub mod Session
pub mod Steps
pub mod Refine
pub mod Records
use picotm.Prelude.{
  ℕ, ◌+◌, ◌-◌, ◌%◌, ◌^◌, ◌≤◌, ◌≡◌, Bool, true, false, ◌&&◌, ◌||◌, Option, none, some, List, [], ◌∷◌,
  ◌++◌, length, ◌==◌, ltb, leb, if◌then◌else◌,
}
use picotm.Error.{Error, is_set}

abbrev pub word_mod : ℕ
word_mod = 2 ^ 64

-- The sum and the difference of two words.
abbrev pub add_word : ℕ → ℕ → ℕ
add_word a b = (a + b) % word_mod

abbrev pub sub_word : ℕ → ℕ → ℕ
sub_word a b = (a + (word_mod - b % word_mod)) % word_mod

-- Two words as signed numbers.
abbrev pub less_signed : ℕ → ℕ → Bool
less_signed a b = ltb ((a + 2 ^ 63) % word_mod) ((b + 2 ^ 63) % word_mod)

unfoldable pub llmin : ℕ → ℕ → ℕ
llmin a b = if less_signed a b then a else b

unfoldable pub llmax : ℕ → ℕ → ℕ
llmax a b = if less_signed b a then a else b

-- The last byte that two ranges share, when the second one begins in the first one.
abbrev pub last_common : ℕ → ℕ → ℕ → ℕ → ℕ
last_common off0 siz0 off1 siz1 =
    if ltb (add_word off1 siz1) (add_word off0 siz0)
    then sub_word (add_word off1 siz1) 1
    else sub_word (add_word off0 siz0) 1

abbrev pub found_range : ℕ → ℕ → Option (ℕ × ℕ)
found_range ioff iend = some (ioff, add_word (sub_word iend ioff) 1)

-- The offset and the size of what two ranges share.
unfoldable pub rangeisect : ℕ → ℕ → ℕ → ℕ → Option (ℕ × ℕ)
unfolding llmin
rangeisect off0 siz0 off1 siz1 =
    if (siz0 == 0) || (siz1 == 0)
    then none
    else if less_signed off0 off1 && less_signed off1 (add_word off0 siz0)
    then found_range off1 (last_common off0 siz0 off1 siz1)
    else if less_signed off1 off0 && less_signed off0 (add_word off1 siz1)
    then found_range off0 (last_common off1 siz1 off0 siz0)
    else if off0 == off1
    then found_range off0 (sub_word (add_word off0 (llmin siz0 siz1)) 1)
    else none

pub record IoOp : Type 0 where
  pub off : ℕ
  pub nbyte : ℕ
  pub bufoff : ℕ

abbrev pub ioop_init : ℕ → ℕ → ℕ → IoOp
ioop_init off nbyte bufoff = record { off = off; nbyte = nbyte; bufoff = bufoff }

-- The buffer `dst` with `n` bytes from `at` on, which are those of `src` from `start` on.
unfoldable pub memcpy : (ℕ → ℕ) → ℕ → (ℕ → ℕ) → ℕ → ℕ → ℕ → ℕ
memcpy dst at src start n i = if leb at i && ltb i (at + n) then src (start + (i - at)) else dst i

-- The answer, and the buffer.
unfoldable pub read_common : IoOp → (ℕ → ℕ) → ℕ → (ℕ → ℕ) → Option (ℕ × ℕ) → ℕ × (ℕ → ℕ)
unfolding memcpy
read_common self buf offset iobuf none = (0, buf)
read_common self buf offset iobuf (some (ioff, isiz)) = (
  sub_word (add_word ioff isiz) offset,
  memcpy buf (sub_word ioff offset) iobuf (add_word self.bufoff (sub_word ioff self.off)) isiz,
)

unfoldable pub ioop_read : IoOp → (ℕ → ℕ) → ℕ → ℕ → (ℕ → ℕ) → ℕ × (ℕ → ℕ)
unfolding rangeisect
ioop_read self buf nbyte offset iobuf =
    read_common self buf offset iobuf (rangeisect offset nbyte self.off self.nbyte)

unfoldable pub read_from : ℕ → List IoOp → (ℕ → ℕ) → ℕ → ℕ → (ℕ → ℕ) → ℕ × (ℕ → ℕ)
unfolding ioop_read llmax
read_from len [] buf nbyte offset iobuf = (len, buf)
read_from len (op ∷ tab) buf nbyte offset iobuf =
    let read : ℕ × (ℕ → ℕ) = ioop_read op buf nbyte offset iobuf in
    read_from (llmax len read.0) tab read.1 nbyte offset iobuf

-- The loop over the operations, the oldest first.
unfoldable pub iooptab_read : List IoOp → (ℕ → ℕ) → ℕ → ℕ → (ℕ → ℕ) → ℕ × (ℕ → ℕ)
iooptab_read tab buf nbyte offset iobuf = read_from 0 tab buf nbyte offset iobuf

-- A table with the number of elements that it has room for.
pub record IoOpTab : Type 0 where
  pub ops : List IoOp
  pub room : ℕ

-- The answer is the index of the new operation, `none` for an error.
unfoldable pub iooptab_append :
    (Error → Error) → IoOpTab → ℕ → ℕ → ℕ → Error → IoOpTab × Option ℕ × Error
iooptab_append resize tab nbyte offset bufoff error =
    let full = leb tab.room (length tab.ops) in
    let resized = if full then resize error else error in
    if full && is_set resized then (tab, none, resized) else (
      record {
        ops = tab.ops ++ ioop_init offset nbyte bufoff ∷ [];
        room = if full then tab.room + 1 else tab.room;
      },
      some (length tab.ops),
      resized,
    )
