-- ===== src/Tests/Memory.antt =====
-- Runs of transactions on memory.
use picotm.Prelude.{
  ℕ, ◌+◌, ◌*◌, ◌/◌, ◌%◌, ◌≡◌, ◌⊎◌, refl, Bool, true, false, Option, some, none, List, [], ◌∷◌,
  if◌then◌else◌, ◌==◌,
}
use picotm.Error.{Error, error_initializer, is_set, is_set-initializer}
use picotm.Rwlock.Wait.{Attempt}
use picotm.Rwlock.Threads.{wrlocked}
use picotm.Rwlock.{try_wrlock}
use picotm.Rwlock.Wait.{try_lock_or_wait, rwlock_try_wrlock, rwlock_try_rdlock}
use picotm.Rwlock.State.{rwstate_try_rdlock, rwstate_try_wrlock}
use picotm.Tm.{
  Page, Vmem, tm_page_buffer, tm_page_ld, tm_page_st, tm_page_try_rdlock_frame,
  tm_page_try_wrlock_frame, after_attempt,
}
use picotm.Tm.Transaction.{
  acquire_page_by_address, acquire_found, alloc_page, find_page, insert_page, set_page, copy_bits,
  copy_in,
}
use picotm.Tm.Ranges.{
  tm_vmem_tx_st, tm_vmem_tx_ld, st_page, ld_page, st_rest, ld_rest, prepare_found, prepare_page_ld,
  prepare_page_st, when_fine, fill_page, walk_pages, apply_page, store_page,
}
use picotm.Tm.Transaction.{VmemTx, tm_failed, read_range}
use picotm.Tm.Ranges.{undo_page, tm_vmem_tx_apply, tm_vmem_tx_undo}
use picotm.Tm.Session.{Access, load, store, fresh_tx, run_accesses, run_directly}
use picotm.Tm.Commit.{tm_vmem_tx_apply-run_accesses, tm_vmem_tx_undo-run_accesses}
use picotm.Tm.Privatize.{prepare_page_privatize, undo_page-prepare_page_privatize}

abbrev found_frame : ℕ → Error → Error
found_frame b e = e

abbrev no_wait : ℕ → Attempt → Attempt
no_wait b a = a

abbrev plenty : List Page → Bool
plenty ps = true

-- Every byte is the number of its address.
abbrev numbered : Vmem
numbered = record { mem = λ a. a % 256; words = λ b. 0; error = error_initializer }

-- A store across two blocks, and a load of the same and two more bytes.
abbrev store_and_load : List Access
store_and_load = store 5 (90 ∷ 80 ∷ 70 ∷ 60 ∷ 50 ∷ []) ∷ load 4 7 ∷ []

tm_vmem_tx_apply-run_accesses_example :
    (answers : List (List ℕ)) × (t : VmemTx) × (run_accesses found_frame no_wait plenty
        store_and_load
        (fresh_tx 0 numbered)
      ≡ some (answers, t))
    × ((tm_failed t.vmem ≡ true)
        ⊎ ((answers, (tm_vmem_tx_apply found_frame t).vmem.mem)
            ≡ run_directly store_and_load numbered.mem))
tm_vmem_tx_apply-run_accesses_example =
    tm_vmem_tx_apply-run_accesses found_frame no_wait plenty store_and_load 0 numbered
      (λ b e clean. clean)

-- The answers, and some bytes after the commit.
abbrev observed : Option (List (List ℕ) × VmemTx) → Option (List (List ℕ) × List ℕ)
observed none = none
observed (some (answers, t)) =
    some (answers, read_range (tm_vmem_tx_apply found_frame t).vmem.mem 3 8)

-- The loads and the commit of that transaction.
committed_bytes :
    observed (run_accesses found_frame no_wait plenty store_and_load (fresh_tx 0 numbered))
    ≡ some ((4 ∷ 90 ∷ 80 ∷ 70 ∷ 60 ∷ 50 ∷ 10 ∷ []) ∷ [], 3 ∷ 4 ∷ 90 ∷ 80 ∷ 70 ∷ 60 ∷ 50 ∷ 10 ∷ [])
unfolding run_accesses tm_vmem_tx_apply tm_vmem_tx_st tm_vmem_tx_ld st_page ld_page st_rest ld_rest
    prepare_found acquire_page_by_address acquire_found alloc_page find_page insert_page set_page
    prepare_page_ld prepare_page_st when_fine fill_page tm_page_ld tm_page_st
    tm_page_try_rdlock_frame tm_page_try_wrlock_frame after_attempt rwstate_try_rdlock
    rwstate_try_wrlock try_lock_or_wait rwlock_try_wrlock rwlock_try_rdlock copy_bits copy_in
    read_range walk_pages apply_page store_page tm_failed is_set try_wrlock
committed_bytes = refl

-- A locked frame: the second of two stores is in conflict.
abbrev contended : Vmem
contended = record numbered { words = λ b. if b == 1 then 15 else 0 }

tm_vmem_tx_undo-run_accesses_example :
    (answers : List (List ℕ)) × (t : VmemTx) × (run_accesses found_frame no_wait plenty
        store_and_load
        (fresh_tx 0 contended)
      ≡ some (answers, t))
    × (t.vmem.mem ≡ contended.mem)
    × ((tm_vmem_tx_undo found_frame t).vmem.mem ≡ contended.mem)
tm_vmem_tx_undo-run_accesses_example =
    tm_vmem_tx_undo-run_accesses found_frame no_wait plenty store_and_load 0 contended

-- A page of which the byte 2 has been stored.
abbrev stored_to : Page
stored_to = record {
  block = 1;
  write_through = false;
  discarded = false;
  status = wrlocked;
  buf = λ i. if i == 2 then 77 else 8 + i;
  buf_bits = λ i. true;
}

undo_page-prepare_page_privatize_example :
    let r = prepare_page_privatize found_frame no_wait 8 8 2 (stored_to, numbered) in
    (tm_page_buffer r.0 r.1 (10 % 8) ≡ numbered.mem (1 * 8 + 10 % 8))
    × (((undo_page found_frame r.0 r.1).0).mem 10
        ≡ (if (10 / 8) == 1 then stored_to.buf (10 % 8) else numbered.mem 10))
unfolding tm_failed is_set
undo_page-prepare_page_privatize_example =
    undo_page-prepare_page_privatize found_frame no_wait 8 8 2 stored_to numbered refl refl refl
      refl is_set-initializer is_set-initializer 10
