-- ===== src/Tm/Ranges.antt =====
-- modules/tm/src/vmem_tx.c: loads and stores of ranges of memory, the commit, the rollback and the finish.
--
-- `none` is an answer of a loop that runs out of fuel; a range of bytes is given as much fuel as it has
-- bytes. Nobody else writes the memory while the transaction runs.
use picotm.Prelude.{
  ℕ, zero, suc, ◌+◌, ◌-◌, Bool, true, not, ◌&&◌, Option, none, some, List, [], ◌∷◌, ◌++◌, length,
  take, drop, ◌==◌, if◌then◌else◌, ◌>>=◌,
}
use picotm.Error.{Error, set_error_code, out_of_bounds}
use picotm.Rwlock.Wait.{Attempt}
use picotm.Tm.{
  Page, Vmem, tm_page_address, tm_page_is_complete, tm_page_has_locked_frame,
  tm_page_has_rdlocked_frame, tm_page_has_wrlocked_frame, tm_page_buffer, tm_page_ld, tm_page_st,
  tm_page_try_rdlock_frame, tm_page_try_wrlock_frame, tm_page_unlock_frame,
}
use picotm.Tm.Transaction.{
  VmemTx, acquire_page_by_address, copy_bits, page_diff, read_range, tm_failed, with_page,
  write_buffer,
}

module _ (lookup : ℕ → Error → Error) (wait : ℕ → Attempt → Attempt) where
  -- With the lock: load the bytes of the range that the buffer does not have.
  unfoldable pub fill_page : ℕ → ℕ → Page × Vmem → Page × Vmem
  fill_page addr siz (page, vmem) =
      if tm_page_is_complete page
      then (page, vmem)
      else tm_page_ld lookup page (copy_bits addr siz) vmem

  unfoldable pub when_fine : (Page × Vmem → Page × Vmem) → Page × Vmem → Page × Vmem
  when_fine f (page, vmem) = if tm_failed vmem then (page, vmem) else f (page, vmem)

  unfoldable pub prepare_page_ld : ℕ → ℕ → Page × Vmem → Page × Vmem
  unfolding when_fine
  prepare_page_ld addr siz (page, vmem) =
      if page.discarded
      then (page, record vmem { error = set_error_code vmem.error out_of_bounds })
      else if tm_page_has_rdlocked_frame page
      then fill_page addr siz (page, vmem)
      else when_fine (fill_page addr siz) (tm_page_try_rdlock_frame lookup wait page vmem)

  unfoldable pub prepare_page_st : ℕ → ℕ → Page × Vmem → Page × Vmem
  unfolding when_fine
  prepare_page_st addr siz (page, vmem) =
      if page.discarded
      then (page, record vmem { error = set_error_code vmem.error out_of_bounds })
      else if tm_page_has_wrlocked_frame page
      then fill_page addr siz (page, vmem)
      else when_fine (fill_page addr siz) (tm_page_try_wrlock_frame lookup wait page vmem)

  module _ (malloc : List Page → Bool) where
    -- One round of a loop: the page of the address, prepared, and the state.
    unfoldable pub prepare_found :
        (Page × Vmem → Page × Vmem) → Option Page × VmemTx → Option Page × VmemTx
    prepare_found prepare (none, self) = (none, self)
    prepare_found prepare (some page, self) =
        let (page', vmem') = prepare (page, self.vmem) in
        if tm_failed self.vmem
        then (none, self)
        else (if tm_failed vmem' then none else some page', with_page self page' vmem')

    unfoldable pub ld_page : ℕ → ℕ → VmemTx → Option Page × VmemTx
    unfolding prepare_found
    ld_page addr siz self =
        prepare_found (prepare_page_ld addr siz) (acquire_page_by_address malloc addr self)

    unfoldable pub st_page : ℕ → ℕ → VmemTx → Option Page × VmemTx
    unfolding prepare_found
    st_page addr siz self =
        prepare_found (prepare_page_st addr siz) (acquire_page_by_address malloc addr self)

    -- The answer is the bytes that have been copied, and the state.
    unfoldable pub ld_rest :
        ℕ
        → Option Page × VmemTx
        → (ℕ → VmemTx → Option (List ℕ × VmemTx))
        → ℕ
        → Option (List ℕ × VmemTx)
    ld_rest addr (none, self) next siz = some ([], self)
    ld_rest addr (some page, self) next siz =
        let n = page_diff page addr siz in
        let chunk = read_range (tm_page_buffer page self.vmem) (addr - tm_page_address page) n in
        next n self >>= λ (bytes, self'). some (chunk ++ bytes, self')

    unfoldable pub tm_vmem_tx_ld : (fuel : ℕ) → ℕ → ℕ → VmemTx → Option (List ℕ × VmemTx)
    unfolding ld_rest
    tm_vmem_tx_ld zero addr siz self = if siz == 0 then some ([], self) else none
    tm_vmem_tx_ld (suc fuel) addr siz self =
        let rest =
          ld_rest addr (ld_page addr siz self) (λ n s. tm_vmem_tx_ld fuel (addr + n) (siz - n) s)
            siz in
        if siz == 0 then some ([], self) else rest

    unfoldable pub st_rest :
        ℕ → List ℕ → Option Page × VmemTx → (ℕ → VmemTx → Option VmemTx) → Option VmemTx
    st_rest addr bytes (none, self) next = some self
    st_rest addr bytes (some page, self) next =
        let n = page_diff page addr (length bytes) in
        let (page', vmem') =
          write_buffer page self.vmem (addr - tm_page_address page) (take n bytes) in
        next n (with_page self page' vmem')

    -- The bytes are those that are still to be stored.
    unfoldable pub tm_vmem_tx_st : (fuel : ℕ) → ℕ → List ℕ → VmemTx → Option VmemTx
    unfolding st_rest
    tm_vmem_tx_st zero addr bytes self = if length bytes == 0 then some self else none
    tm_vmem_tx_st (suc fuel) addr bytes self =
        let rest =
          st_rest addr bytes (st_page addr (length bytes) self)
            (λ n s. tm_vmem_tx_st fuel (addr + n) (drop n bytes) s) in
        if length bytes == 0 then some self else rest

module _ (lookup : ℕ → Error → Error) where
  -- Whether the walk goes on is part of the answer.
  unfoldable pub store_page : Page → Vmem → Vmem × Bool
  store_page page vmem =
      let vmem' = tm_page_st lookup page (λ i. true) vmem in (vmem', not (tm_failed vmem'))

  -- A page is stored if it has been locked for writing, and is not in one of the two other modes.
  unfoldable pub apply_page : Page → Vmem → Vmem × Bool
  unfolding store_page
  apply_page page vmem =
      if tm_page_has_wrlocked_frame page && (not page.write_through && not page.discarded)
      then store_page page vmem
      else (vmem, true)

  -- The bytes that a page in write-through mode has saved go back.
  unfoldable pub undo_page : Page → Vmem → Vmem × Bool
  unfolding store_page
  undo_page page vmem =
      if tm_page_has_wrlocked_frame page && (page.write_through && not page.discarded)
      then store_page page vmem
      else (vmem, true)

  -- picotm_slist_walk_2()
  unfoldable pub walk_pages : (Page → Vmem → Vmem × Bool) → List Page → Vmem → Vmem
  walk_pages f [] vmem = vmem
  walk_pages f (p ∷ ps) vmem =
      let rest = walk_pages f ps (f p vmem).0 in if (f p vmem).1 then rest else (f p vmem).0

  unfoldable pub tm_vmem_tx_apply : VmemTx → VmemTx
  tm_vmem_tx_apply self = record self { vmem = walk_pages apply_page self.active_pages self.vmem }

  unfoldable pub tm_vmem_tx_undo : VmemTx → VmemTx
  tm_vmem_tx_undo self = record self { vmem = walk_pages undo_page self.active_pages self.vmem }

  -- The page is unlocked, and given back unless that fails.
  unfoldable pub finish_page : Page → VmemTx → VmemTx
  finish_page page self =
      let vmem' = (tm_page_unlock_frame lookup page self.vmem).1 in
      if tm_page_has_locked_frame page
      then (if tm_failed vmem'
          then record self { vmem = vmem' }
          else record self { vmem = vmem'; alloced_pages = self.alloced_pages + 1 })
      else record self { alloced_pages = self.alloced_pages + 1 }

  finish_pages : List Page → VmemTx → VmemTx
  finish_pages [] self = self
  finish_pages (p ∷ ps) self = finish_pages ps (finish_page p self)

  -- picotm_slist_cleanup_2() takes every page off the list.
  unfoldable pub tm_vmem_tx_finish : VmemTx → VmemTx
  unfolding finish_pages
  tm_vmem_tx_finish self = finish_pages self.active_pages (record self { active_pages = [] })
