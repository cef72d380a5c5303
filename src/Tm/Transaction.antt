-- ===== src/Tm/Transaction.antt =====
-- modules/tm/src/vmem_tx.c: the state of a transaction on memory, its list of active pages, and copies of bytes.
--
-- The list of active pages is a list of pages. A change to the page that an access has acquired is
-- written back to the list by `set_page`. Addresses do not wrap around.
--
-- The argument `malloc` is whether malloc() has memory for one more page behind the active ones.
use picotm.Prelude.{
  ℕ, zero, suc, ◌+◌, ◌-◌, ◌*◌, ◌/◌, ◌%◌, ◌^◌, Bool, Option, none, some, List, [], ◌∷◌, ◌==◌, leb,
  ltb, if◌then◌else◌,
}
use picotm.Prelude.Count.{update}
use picotm.Error.{is_set, set_error_code, out_of_memory}
use picotm.Tm.{Page, Vmem, tm_block_size, tm_block_index_at, tm_page_init, tm_page_address}

-- A transaction on memory: its active pages in the order of their blocks, the number of pages that wait
-- to be used again, and the shared memory.
pub record VmemTx : Type 0 where
  pub active_pages : List Page
  pub alloced_pages : ℕ
  pub vmem : Vmem

unfoldable pub tm_failed : Vmem → Bool
unfolding is_set
tm_failed vmem = is_set vmem.error

-- picotm_slist_find_2() with find_page_by_block_index(): the first page whose block is not below, if it
-- is the one.
unfoldable pub find_page : ℕ → List Page → Option Page
find_page b [] = none
find_page b (p ∷ ps) =
    if leb b p.block then (if p.block == b then some p else none) else find_page b ps

-- Behind the last page with a smaller block.
unfoldable pub insert_page : Page → List Page → List Page
insert_page q [] = q ∷ []
insert_page q (p ∷ ps) = if leb q.block p.block then q ∷ p ∷ ps else p ∷ insert_page q ps

unfoldable pub set_page : Page → List Page → List Page
set_page q [] = []
set_page q (p ∷ ps) =
    if leb q.block p.block
    then (if p.block == q.block then q ∷ ps else p ∷ ps)
    else p ∷ set_page q ps

abbrev pub with_page : VmemTx → Page → Vmem → VmemTx
with_page self page vmem = record self {
  active_pages = set_page page self.active_pages;
  vmem = vmem;
}

abbrev ulmin : ℕ → ℕ → ℕ
ulmin lhs rhs = if ltb lhs rhs then lhs else rhs

-- The bits of the bytes from `addr` on that lie in its block, and in a range of `siz` bytes.
unfoldable pub copy_bits_word : ℕ → ℕ → ℕ
copy_bits_word addr siz =
    255 / 2 ^ (tm_block_size - ulmin siz tm_block_size) * 2 ^ (addr % tm_block_size) % 256

unfoldable pub copy_bits : ℕ → ℕ → ℕ → Bool
unfolding copy_bits_word
copy_bits addr siz i = copy_bits_word addr siz / 2 ^ i % 2 == 1

-- Bytes of a buffer, and a buffer with bytes copied into it.
unfoldable pub read_range : (ℕ → ℕ) → ℕ → ℕ → List ℕ
read_range f from zero = []
read_range f from (suc n) = f from ∷ read_range f (suc from) n

unfoldable pub copy_in : (ℕ → ℕ) → ℕ → List ℕ → ℕ → ℕ
copy_in f from [] = f
copy_in f from (b ∷ bs) = copy_in (update f from b) (suc from) bs

-- memcpy() to tm_page_buffer()
abbrev pub write_buffer : Page → Vmem → ℕ → List ℕ → Page × Vmem
write_buffer page vmem head bs =
    if page.write_through
    then (page, record vmem { mem = copy_in vmem.mem (tm_page_address page + head) bs })
    else (record page { buf = copy_in page.buf head bs }, vmem)

abbrev pub page_diff : Page → ℕ → ℕ → ℕ
page_diff page addr siz =
    let page_tail = tm_block_size - (addr - tm_page_address page) in
    if ltb siz page_tail then siz else page_tail

module _ (malloc : List Page → Bool) where
  -- A page comes from the list of free pages, or from malloc().
  unfoldable pub alloc_page : VmemTx → VmemTx
  alloc_page self =
      if self.alloced_pages == 0
      then (if malloc self.active_pages then self else (record self {
        vmem = record (self.vmem) { error = set_error_code self.vmem.error out_of_memory };
      }))
      else (record self { alloced_pages = self.alloced_pages - 1 })

  unfoldable pub acquire_found : ℕ → VmemTx → Option Page → Option Page × VmemTx
  acquire_found block_index self (some page) = (some page, self)
  acquire_found block_index self none =
      let self' = alloc_page self in
      if tm_failed self'.vmem then (none, self') else (
        some (tm_page_init block_index),
        record self' { active_pages = insert_page (tm_page_init block_index) self'.active_pages },
      )

  unfoldable pub acquire_page_by_block : ℕ → VmemTx → Option Page × VmemTx
  unfolding acquire_found alloc_page
  acquire_page_by_block block_index self =
      acquire_found block_index self (find_page block_index self.active_pages)

  unfoldable pub acquire_page_by_address : ℕ → VmemTx → Option Page × VmemTx
  unfolding acquire_page_by_block
  acquire_page_by_address addr self = acquire_page_by_block (tm_block_index_at addr) self
