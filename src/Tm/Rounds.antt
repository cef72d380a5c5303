-- ===== src/Tm/Rounds.antt =====
-- modules/tm/src/vmem_tx.c: one round of a loop over the pages of a range.
use picotm.Prelude.{
  ℕ, ◌-◌, ◌/◌, ◌≡◌, refl, ◌∙◌, inl, inr, Bool, true, false, Option, none, some, List, if◌then◌else◌,
  if_true, Bool-cases, ◌==◌, eq→==,
}
use picotm.Error.{Error, is_set, out_of_memory, is_set-set_error_code}
use picotm.Rwlock.Wait.{Attempt}
use picotm.Tm.{Page, Vmem, tm_page_init, tm_page_has_wrlocked_frame}
use picotm.Tm.Transaction.{
  VmemTx, tm_failed, find_page, insert_page, with_page, alloc_page, acquire_found,
  acquire_page_by_address,
}
use picotm.Tm.Ranges.{prepare_found, prepare_page_ld, prepare_page_st, ld_page, st_page}
use picotm.Tm.Pages.{find_page-insert_page}
use picotm.Tm.Lock.{Kept, IsGood}
use picotm.Tm.Access.{HasRange, prepare_page_ld_lem, prepare_page_st_lem}
use picotm.Tm.Seen.{IsConsistent, Steady, Steady-refl, Steady-trans, insert_init_lem, with_page_lem}

module _ (malloc : List Page → Bool) where
  -- What an acquired page is.
  abbrev Acquired : ℕ → VmemTx → Option Page × VmemTx → Type 0
  Acquired b t (none, t') = Steady t t' × tm_failed t'.vmem ≡ true
  Acquired b t (some p, t') = Steady t t' × find_page b t'.active_pages ≡ some p

  acquire_found_lem :
      (b : ℕ) (t : VmemTx) (o : Option Page)
      → IsConsistent t
      → find_page b t.active_pages ≡ o
      → Acquired b t (acquire_found malloc b t o)
  unfolding acquire_found alloc_page tm_failed
  acquire_found_lem b t (some p) c f = (Steady-refl t c, f)
  acquire_found_lem b t none c f = elim (Bool-cases (t.alloced_pages == 0)) [
    | inl empty ↦ elim (Bool-cases (malloc t.active_pages)) [
      | inl more ↦ rw (empty, more) (fresh t.alloced_pages)
      | inr less ↦
          rw (empty, less, is_set-set_error_code t.vmem.error out_of_memory)
            (
              record {
                same_mem = refl;
                consistent = record { sorted = c.sorted; goods = c.goods };
                same_view = λ a. refl;
              },
              is_set-set_error_code t.vmem.error out_of_memory,
            )
    ]
    | inr some_left ↦ rw some_left (fresh (t.alloced_pages - 1))
  ]
    where
      inserted : find_page b (insert_page (tm_page_init b) t.active_pages) ≡ some (tm_page_init b)
      inserted =
          find_page-insert_page b (tm_page_init b) t.active_pages
          ∙ if_true (b == b) _ _ (eq→== b b refl)

      fresh :
          (n : ℕ)
          → Acquired b t (
              if is_set t.vmem.error then (none, record t { alloced_pages = n }) else (
                some (tm_page_init b),
                record t {
                  alloced_pages = n;
                  active_pages = insert_page (tm_page_init b) t.active_pages;
                },
              ))
      fresh n = elim (Bool-cases (is_set t.vmem.error)) [
        | inl bad ↦ rw bad (
          record {
            same_mem = refl;
            consistent = record { sorted = c.sorted; goods = c.goods };
            same_view = λ a. refl;
          },
          bad,
        )
        | inr ok ↦ rw ok (insert_init_lem b n t c f, inserted)
      ]

  module _ (lookup : ℕ → Error → Error) (wait : ℕ → Attempt → Attempt) where
    -- What one round of a loop starts from: a page with property `P`, or an error.
    abbrev pub Ready : (Page → Type 0) → ℕ → VmemTx → Option Page × VmemTx → Type 0
    Ready P b t (none, t') = Steady t t' × tm_failed t'.vmem ≡ true
    Ready P b t (some p, t') = Steady t t' × find_page b t'.active_pages ≡ some p × P p

    prepare_found_lem :
        (P : Page → Type 0) (b : ℕ) (t : VmemTx) (prepare : Page × Vmem → Page × Vmem)
        → ((p : Page) (v : Vmem)
            → IsGood v.mem p
            → Kept p v (prepare (p, v)).0 (prepare (p, v)).1
              × (tm_failed (prepare (p, v)).1 ≡ false → P (prepare (p, v)).0))
        → (r : Option Page × VmemTx) → Acquired b t r
        → Ready P b t (prepare_found lookup wait malloc prepare r)
    unfolding prepare_found
    prepare_found_lem P b t prepare prepares (none, t') acquired = acquired
    prepare_found_lem P b t prepare prepares (some p, t') (steady, found) =
        elim (Bool-cases (tm_failed t'.vmem)) [
          | inl bad ↦ rw bad (steady, bad)
          | inr clear ↦ rw clear (
              let (kept, fine) = prepares p t'.vmem (steady.consistent.goods b p found) in
              let (written, there) =
                with_page_lem b t' p (prepare (p, t'.vmem)).0 (prepare (p, t'.vmem)).1
                  steady.consistent found kept in
              let all =
                Steady-trans t t' (with_page t' (prepare (p, t'.vmem)).0 (prepare (p, t'.vmem)).1)
                  steady written in
              elim (Bool-cases (tm_failed (prepare (p, t'.vmem)).1)) [
                | inl bad ↦ rw bad (all, bad)
                | inr ok ↦ rw ok (all, there, fine ok)
              ])
        ]

    pub ld_page_lem :
        (addr siz : ℕ) (t : VmemTx)
        → IsConsistent t
        → Ready (HasRange addr siz) (addr / 8) t (ld_page lookup wait malloc addr siz t)
    unfolding ld_page acquire_page_by_address
    ld_page_lem addr siz t c =
        prepare_found_lem (HasRange addr siz) (addr / 8) t (prepare_page_ld lookup wait addr siz)
          (prepare_page_ld_lem lookup wait addr siz)
          (acquire_found malloc (addr / 8) t (find_page (addr / 8) t.active_pages))
          (acquire_found_lem (addr / 8) t (find_page (addr / 8) t.active_pages) c refl)

    pub st_page_lem :
        (addr siz : ℕ) (t : VmemTx)
        → IsConsistent t
        → Ready
            (λ p. HasRange addr siz p × tm_page_has_wrlocked_frame p ≡ true)
            (addr / 8)
            t
            (st_page lookup wait malloc addr siz t)
    unfolding st_page acquire_page_by_address
    st_page_lem addr siz t c =
        prepare_found_lem (λ p. HasRange addr siz p × tm_page_has_wrlocked_frame p ≡ true)
          (addr / 8) t (prepare_page_st lookup wait addr siz)
          (prepare_page_st_lem lookup wait addr siz)
          (acquire_found malloc (addr / 8) t (find_page (addr / 8) t.active_pages))
          (acquire_found_lem (addr / 8) t (find_page (addr / 8) t.active_pages) c refl)
