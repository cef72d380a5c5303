-- ===== src/Tm/Loops.antt =====
-- modules/tm/src/vmem_tx.c: the loops over the pages of a range.
use picotm.Prelude.{
  ℕ, zero, suc, ◌+◌, ◌-◌, ◌*◌, ◌/◌, ◌%◌, ◌≤◌, ◌<◌, ◌≡◌, refl, ◌∙◌, sym, ap, ap₂, subst, fun_ext,
  inl, inr, arith, Bool, true, false, true≢false, Option, none, some, List, [], ◌∷◌, ◌++◌, length,
  length-take, length-drop, take, drop, if_true, if_false, Bool-cases, ◌==◌, ==→eq,
}
use picotm.Error.{Error}
use picotm.Rwlock.Wait.{Attempt}
use picotm.Tm.{Page, tm_page_buffer, tm_page_has_wrlocked_frame}
use picotm.Tm.Transaction.{
  VmemTx, tm_failed, find_page, with_page, copy_in, read_range, page_diff, write_buffer,
}
use picotm.Tm.Ranges.{ld_page, st_page, ld_rest, st_rest, tm_vmem_tx_ld, tm_vmem_tx_st}
use picotm.Tm.Pages.{find_page-block, set_page-IsSorted}
use picotm.Tm.Bytes.{read_range-append, copy_in-split}
use picotm.Tm.Access.{HasRange}
use picotm.Tm.Seen.{tx_view, IsConsistent, Steady, Steady-refl, Steady-trans, set_page-goods}
use picotm.Tm.Rounds.{Ready, ld_page_lem, st_page_lem}
use picotm.Tm.Copies.{stored_page, round_reads, round_writes, page_diff_le, page_diff_pos}

-- What is expected of a load of a range: the answer, the state, and the bytes unless there is an error.
abbrev pub Loads : ℕ → ℕ → VmemTx → Option (List ℕ × VmemTx) → Type 0
Loads addr siz t o =
    (bytes : List ℕ) × (t' : VmemTx) × (o ≡ some (bytes, t'))
    × Steady t t'
    × (tm_failed t'.vmem ≡ false → bytes ≡ read_range (tx_view t) addr siz)

nothing_loaded :
    (addr siz : ℕ) (t : VmemTx) → IsConsistent t → siz ≡ 0 → Loads addr siz t (some ([], t))
unfolding read_range
nothing_loaded addr siz t c e =
    ([], t, refl, Steady-refl t c, λ fine. ap (read_range (tx_view t) addr) (sym e))

-- What is expected of a store of bytes.
abbrev pub Stores : ℕ → List ℕ → VmemTx → Option VmemTx → Type 0
Stores addr bytes t o =
    (t' : VmemTx) × (o ≡ some t')
    × IsConsistent t'
    × t'.vmem.mem ≡ t.vmem.mem
    × (tm_failed t'.vmem ≡ false → (a : ℕ) → tx_view t' a ≡ copy_in (tx_view t) addr bytes a)

nothing_stored :
    (addr : ℕ) (bytes : List ℕ) (t : VmemTx)
    → IsConsistent t
    → length bytes ≡ 0
    → Stores addr bytes t (some t)
unfolding copy_in
nothing_stored addr [] t c e = (t, refl, c, refl, λ fine a. refl)
nothing_stored addr (b ∷ bs) t c e = absurd (omega arith)

module _ (lookup : ℕ → Error → Error) (wait : ℕ → Attempt → Attempt)
    (malloc : List Page → Bool) where
  ld_rest_lem :
      (addr siz : ℕ) (t : VmemTx) (next : ℕ → VmemTx → Option (List ℕ × VmemTx))
      → 0 < siz
      → ((n : ℕ) (s : VmemTx)
          → 0 < n
          → n ≤ siz
          → IsConsistent s
          → Loads (addr + n) (siz - n) s (next n s))
      → (r : Option Page × VmemTx) → Ready malloc lookup wait (HasRange addr siz) (addr / 8) t r
      → Loads addr siz t (ld_rest lookup wait malloc addr r next siz)
  unfolding ld_rest
  ld_rest_lem addr siz t next pos loads (none, s) (steady, bad) =
      ([], s, refl, steady, λ fine. absurd (true≢false (sym bad ∙ fine)))
  ld_rest_lem addr siz t next pos loads (some p, s) (steady, found, has) =
      let n = page_diff p addr siz in
      let block = find_page-block (addr / 8) s.active_pages p found in
      let (bytes, s', eq, steady', right) =
        loads n s (page_diff_pos p addr siz block pos) (page_diff_le p addr siz block).0
          steady.consistent in
      (
        read_range (tm_page_buffer p s.vmem) (addr - p.block * 8) n ++ bytes,
        s',
        rw eq refl,
        Steady-trans t s s' steady steady',
        λ fine.
            ap₂ ◌++◌ (round_reads s p addr siz steady.consistent found has) (right fine)
            ∙ sym (read_range-append (tx_view s) addr n (siz - n))
            ∙ ap₂ (λ f m. read_range f addr m) (fun_ext steady.same_view)
                (omega (arith, page_diff_le p addr siz block)),
      )

  pub tm_vmem_tx_ld_lem :
      (fuel addr siz : ℕ) (t : VmemTx)
      → IsConsistent t
      → siz ≤ fuel
      → Loads addr siz t (tm_vmem_tx_ld lookup wait malloc fuel addr siz t)
  unfolding tm_vmem_tx_ld
  tm_vmem_tx_ld_lem zero addr siz t c le =
      subst (Loads addr siz t) (sym (if_true (siz == 0) _ _ (ground arith)))
        (nothing_loaded addr siz t c (omega arith))
  tm_vmem_tx_ld_lem (suc fuel) addr siz t c le = elim (Bool-cases (siz == 0)) [
    | inl empty ↦
        subst (Loads addr siz t) (sym (if_true (siz == 0) _ _ empty))
          (nothing_loaded addr siz t c (==→eq siz 0 empty))
    | inr more ↦ subst (Loads addr siz t) (sym (if_false (siz == 0) _ _ more)) (
        ld_rest_lem addr siz t (λ n s. tm_vmem_tx_ld lookup wait malloc fuel (addr + n) (siz - n) s)
          (ground arith)
          (λ n s pos le' c'. tm_vmem_tx_ld_lem fuel (addr + n) (siz - n) s c' (omega arith))
          (ld_page lookup wait malloc addr siz t) (ld_page_lem malloc lookup wait addr siz t c))
  ]

  stored-IsConsistent :
      (addr : ℕ) (bs : List ℕ) (s : VmemTx) (p : Page)
      → IsConsistent s
      → find_page (addr / 8) s.active_pages ≡ some p
      → tm_page_has_wrlocked_frame p ≡ true
      → IsConsistent (with_page s (stored_page p (addr % 8) bs) s.vmem)
  stored-IsConsistent addr bs s p c f w = record {
    sorted = set_page-IsSorted 0 (stored_page p (addr % 8) bs) s.active_pages c.sorted;
    goods =
        set_page-goods s.vmem.mem (addr / 8) p (stored_page p (addr % 8) bs) s.active_pages f
          (find_page-block (addr / 8) s.active_pages p f)
          (record {
            through = (c.goods (addr / 8) p f).through;
            keeps = (c.goods (addr / 8) p f).keeps;
            clean = λ i l free own. absurd (true≢false (sym w ∙ free));
          })
          c.goods;
  }

  -- A page in neither of the special modes is written in its buffer.
  write_buffer_lem :
      (addr : ℕ) (bs : List ℕ) (s : VmemTx) (p : Page)
      → p.write_through ≡ false
      → p.block ≡ addr / 8
      → write_buffer p s.vmem (addr - p.block * 8) bs ≡ (stored_page p (addr % 8) bs, s.vmem)
  write_buffer_lem addr bs s p e block =
      if_false p.write_through _ _ e ∙ ap (λ h. (stored_page p h bs, s.vmem)) (omega arith)

  st_rest_lem :
      (addr : ℕ) (bytes : List ℕ) (t : VmemTx) (next : ℕ → VmemTx → Option VmemTx)
      → 0 < length bytes
      → ((n : ℕ) (s : VmemTx)
          → 0 < n
          → n ≤ length bytes
          → IsConsistent s
          → Stores (addr + n) (drop n bytes) s (next n s))
      → (r : Option Page × VmemTx)
      → Ready malloc lookup wait
          (λ p. HasRange addr (length bytes) p × tm_page_has_wrlocked_frame p ≡ true)
          (addr / 8)
          t
          r
      → Stores addr bytes t (st_rest lookup wait malloc addr bytes r next)
  unfolding st_rest
  st_rest_lem addr bytes t next pos stores (none, s) (steady, bad) =
      (s, refl, steady.consistent, steady.same_mem, λ fine. absurd (true≢false (sym bad ∙ fine)))
  st_rest_lem addr bytes t next pos stores (some p, s) (steady, found, ready) =
      let (has, w) = ready in
      let n = page_diff p addr (length bytes) in
      let block = find_page-block (addr / 8) s.active_pages p found in
      let written = with_page s (stored_page p (addr % 8) (take n bytes)) s.vmem in
      let (s', eq, c', mem, right) =
        stores n written (page_diff_pos p addr (length bytes) block pos)
          (page_diff_le p addr (length bytes) block).0
          (stored-IsConsistent addr (take n bytes) s p steady.consistent found w) in
      (
        s',
        ap (λ r. next n (with_page s r.0 r.1))
              (write_buffer_lem addr (take n bytes) s p
                (steady.consistent.goods (addr / 8) p found).through block)
            ∙ eq,
        c',
        mem ∙ steady.same_mem,
        λ fine a.
            right fine a
            ∙ ap (λ f. copy_in f (addr + n) (drop n bytes) a)
                (fun_ext (
                  round_writes s p addr (length bytes) (take n bytes) found has
                    (omega (arith, length-take n bytes))
                    (omega (arith, length-take n bytes, page_diff_le p addr (length bytes) block))))
            ∙ ap (λ f. f a)
                (copy_in-split (tx_view s) addr n bytes
                  (page_diff_le p addr (length bytes) block).0)
            ∙ ap (λ f. copy_in f addr bytes a) (fun_ext steady.same_view),
      )

  pub tm_vmem_tx_st_lem :
      (fuel addr : ℕ) (bytes : List ℕ) (t : VmemTx)
      → IsConsistent t
      → length bytes ≤ fuel
      → Stores addr bytes t (tm_vmem_tx_st lookup wait malloc fuel addr bytes t)
  unfolding tm_vmem_tx_st
  tm_vmem_tx_st_lem zero addr bytes t c le =
      subst (Stores addr bytes t) (sym (if_true (length bytes == 0) _ _ (ground arith)))
        (nothing_stored addr bytes t c (omega arith))
  tm_vmem_tx_st_lem (suc fuel) addr bytes t c le = elim (Bool-cases (length bytes == 0)) [
    | inl empty ↦
        subst (Stores addr bytes t) (sym (if_true (length bytes == 0) _ _ empty))
          (nothing_stored addr bytes t c (==→eq (length bytes) 0 empty))
    | inr more ↦ subst (Stores addr bytes t) (sym (if_false (length bytes == 0) _ _ more)) (
        st_rest_lem addr bytes t
          (λ n s. tm_vmem_tx_st lookup wait malloc fuel (addr + n) (drop n bytes) s) (ground arith)
          (λ n s pos short c'.
            tm_vmem_tx_st_lem fuel (addr + n) (drop n bytes) s c'
              (omega (arith, length-drop n bytes short)))
          (st_page lookup wait malloc addr (length bytes) t)
          (st_page_lem malloc lookup wait addr (length bytes) t c))
  ]
