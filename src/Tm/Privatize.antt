-- ===== src/Tm/Privatize.antt =====
-- modules/tm/src/vmem_tx.c: privatization, after which the transaction works on the memory itself.
use picotm.Prelude.{
  ℕ, zero, suc, ◌+◌, ◌-◌, ◌*◌, ◌/◌, ◌%◌, ◌≡◌, ◌∙◌, ap, arith, Bool, true, false, Option, none, some,
  List, ◌==◌, if◌then◌else◌,
}
use picotm.Error.{Error, is_set, set_error_code, out_of_bounds}
use picotm.Rwlock.Wait.{Attempt}
use picotm.Tm.{
  Page, Vmem, tm_page_is_complete, tm_page_has_rdlocked_frame, tm_page_has_wrlocked_frame,
  tm_page_buffer, tm_page_st, tm_page_xchg, tm_page_try_rdlock_frame, tm_page_try_wrlock_frame,
}
use picotm.Tm.Transaction.{VmemTx, tm_failed, copy_bits, page_diff, acquire_page_by_address}
use picotm.Tm.Ranges.{fill_page, when_fine, prepare_found, store_page, undo_page}
use picotm.Tm.Lock.{all_bits_lem}

-- flags & PICOTM_TM_PRIVATIZE_LOAD, and flags & PICOTM_TM_PRIVATIZE_STORE
abbrev pub privatize_load : ℕ → Bool
privatize_load flags = flags % 2 == 1

abbrev pub privatize_store : ℕ → Bool
privatize_store flags = flags / 2 % 2 == 1

abbrev set_write_through : Page × Vmem → Page × Vmem
set_write_through (page, vmem) = (record page { write_through = true }, vmem)

abbrev set_discarded : Page × Vmem → Page × Vmem
set_discarded (page, vmem) = (record page { discarded = true }, vmem)

module _ (lookup : ℕ → Error → Error) (wait : ℕ → Attempt → Attempt) where
  -- The frame's lock, if it is not held yet.
  abbrev wrlocked_page : Page × Vmem → Page × Vmem
  wrlocked_page (page, vmem) =
      if tm_page_has_wrlocked_frame page
      then (page, vmem)
      else tm_page_try_wrlock_frame lookup wait page vmem

  abbrev rdlocked_page : Page × Vmem → Page × Vmem
  rdlocked_page (page, vmem) =
      if tm_page_has_rdlocked_frame page
      then (page, vmem)
      else tm_page_try_rdlock_frame lookup wait page vmem

  abbrev and_then : (Page × Vmem → Page × Vmem) → Page × Vmem → Page × Vmem
  and_then f r = when_fine lookup wait f r

  unfoldable pub prepare_page_privatize : ℕ → ℕ → ℕ → Page × Vmem → Page × Vmem
  prepare_page_privatize addr siz flags (page, vmem) =
      if page.discarded
      then (page, record vmem { error = set_error_code vmem.error out_of_bounds })
      else if privatize_store flags
      then (and_then set_write_through
          (and_then (fill_page lookup wait addr siz) (wrlocked_page (page, vmem))))
      else if privatize_load flags
      then (and_then set_write_through
          (and_then (fill_page lookup wait addr siz) (rdlocked_page (page, vmem))))
      else if flags == 0
      then and_then set_discarded (wrlocked_page (page, vmem))
      else if page.write_through
      then (page, vmem)
      else if tm_page_has_wrlocked_frame page
      then and_then set_write_through (tm_page_xchg lookup page (copy_bits addr siz) vmem)
      else set_write_through (page, vmem)

  module _ (malloc : List Page → Bool) where
    unfoldable pub privatize_page : ℕ → ℕ → ℕ → VmemTx → Option Page × VmemTx
    privatize_page addr siz flags self =
        prepare_found lookup wait malloc (prepare_page_privatize addr siz flags)
          (acquire_page_by_address malloc addr self)

    privatize_rest : ℕ → ℕ → Option Page × VmemTx → (ℕ → VmemTx → Option VmemTx) → Option VmemTx
    privatize_rest addr siz (none, self) next = some self
    privatize_rest addr siz (some page, self) next = next (page_diff page addr siz) self

    unfoldable pub tm_vmem_tx_privatize : (fuel : ℕ) → ℕ → ℕ → ℕ → VmemTx → Option VmemTx
    unfolding privatize_rest
    tm_vmem_tx_privatize zero addr siz flags self = if siz == 0 then some self else none
    tm_vmem_tx_privatize (suc fuel) addr siz flags self =
        let rest =
          privatize_rest addr siz (privatize_page addr siz flags self)
            (λ n s. tm_vmem_tx_privatize fuel (addr + n) (siz - n) flags s) in
        if siz == 0 then some self else rest

  -- A page that is locked for writing and has all its bytes, stored ones among them, becomes private for
  -- storing without an exchange of its bytes with those of the memory.
  privatize_complete :
      (addr siz flags : ℕ) (page : Page) (vmem : Vmem)
      → page.discarded ≡ false
      → privatize_store flags ≡ true
      → tm_page_has_wrlocked_frame page ≡ true
      → tm_page_is_complete page ≡ true
      → tm_failed vmem ≡ false
      → prepare_page_privatize addr siz flags (page, vmem)
        ≡ (record page { write_through = true }, vmem)
  unfolding prepare_page_privatize when_fine fill_page
  privatize_complete addr siz flags page vmem d st w c ok = ground arith

  rolled_back :
      (page : Page) (vmem : Vmem) (a : ℕ)
      → page.discarded ≡ false
      → tm_page_has_wrlocked_frame page ≡ true
      → is_set (lookup page.block vmem.error) ≡ false
      → tm_page_is_complete page ≡ true
      → ((undo_page lookup (record page { write_through = true }) vmem).0).mem a
        ≡ (if (a / 8) == page.block then page.buf (a % 8) else vmem.mem a)
  unfolding undo_page store_page tm_page_st
  rolled_back page vmem a d w found c =
      ground (arith, all_bits_lem page.buf_bits (a % 8) (omega arith))

  -- Take a page that is locked for writing, and that has all its bytes. After it has become private for
  -- storing, the transaction reads the bytes of the memory, and not those that it had stored in the page;
  -- and a rollback then writes the bytes of the page, stored ones included, into the memory.
  pub undo_page-prepare_page_privatize :
      (addr siz flags : ℕ) (page : Page) (vmem : Vmem)
      → page.discarded ≡ false
      → privatize_store flags ≡ true
      → tm_page_has_wrlocked_frame page ≡ true
      → tm_page_is_complete page ≡ true
      → tm_failed vmem ≡ false
      → is_set (lookup page.block vmem.error) ≡ false
      → (a : ℕ)
      → let r = prepare_page_privatize addr siz flags (page, vmem) in
        (tm_page_buffer r.0 r.1 (a % 8) ≡ vmem.mem (page.block * 8 + a % 8))
        × (((undo_page lookup r.0 r.1).0).mem a
            ≡ (if (a / 8) == page.block then page.buf (a % 8) else vmem.mem a))
  undo_page-prepare_page_privatize addr siz flags page vmem d st w c ok found a =
      let eq = privatize_complete addr siz flags page vmem d st w c ok in
      (
        ap (λ r. tm_page_buffer r.0 r.1 (a % 8)) eq,
        ap (λ (r : Page × Vmem). ((undo_page lookup r.0 r.1).0).mem a) eq
            ∙ rolled_back page vmem a d w found c,
      )
