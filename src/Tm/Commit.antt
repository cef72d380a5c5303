-- ===== src/Tm/Commit.antt =====
-- modules/tm/src/vmem_tx.c: the commit and the rollback of a transaction on memory.
use picotm.Prelude.{
  ℕ, suc, ◌+◌, ◌*◌, ◌/◌, ◌%◌, ◌<◌, ◌≡◌, ◌⊎◌, inl, inr, refl, ◌∙◌, sym, ap, fun_ext, Bool, true,
  false, not, ◌&&◌, Option, none, some, List, [], ◌∷◌, if◌then◌else◌, if_true, if_false, Bool-cases,
  ◌==◌, ==→eq, arith,
}
use picotm.Error.{Error, is_set}
use picotm.Rwlock.Wait.{Attempt}
use picotm.Tm.{Page, Vmem, tm_page_st, tm_page_has_wrlocked_frame, all_buf_bits_set, write_frame}
use picotm.Tm.Transaction.{VmemTx, tm_failed, find_page}
use picotm.Tm.Ranges.{
  store_page, apply_page, undo_page, walk_pages, tm_vmem_tx_apply, tm_vmem_tx_undo,
}
use picotm.Tm.Pages.{
  IsSorted, find_page-block, find_page_head, find_page_tail, find_page_above, find_page-none,
  find_page_empty,
}
use picotm.Tm.Lock.{IsGood, page_view, all_bits_lem}
use picotm.Tm.Seen.{seen}
use picotm.Tm.Session.{
  Access, fresh_tx, fresh-IsConsistent, fresh_view, run_accesses, run_accesses_lem, run_directly,
}

module _ (lookup : ℕ → Error → Error) where
  undo_page_lem : (p : Page) (v : Vmem) → p.write_through ≡ false → undo_page lookup p v ≡ (v, true)
  unfolding undo_page
  undo_page_lem p v e = ground arith

  undo_pages_lem :
      (lo : ℕ) (ps : List Page) (v : Vmem)
      → IsSorted lo ps
      → ((b : ℕ) (p : Page) → find_page b ps ≡ some p → p.write_through ≡ false)
      → walk_pages lookup (undo_page lookup) ps v ≡ v
  unfolding walk_pages
  undo_pages_lem lo [] v s h = refl
  undo_pages_lem lo (p ∷ ps) v s h =
      let first = undo_page_lem p v (h p.block p (find_page_head p ps)) in
      ap (λ w. if w.1 then walk_pages lookup (undo_page lookup) ps w.0 else w.0) first
      ∙ undo_pages_lem (suc p.block) ps v s.1 (λ b q f. h b q (find_page_tail b p q ps s.1 f))

  all_stored :
      (p : Page) (v : Vmem) (a : ℕ)
      → (if all_buf_bits_set (λ i. true) && all_buf_bits_set p.buf_bits
            then write_frame p (λ i. true) v
            else write_frame p (λ i. true && p.buf_bits i) v)
          a
        ≡ (if (a / 8) == p.block then page_view v.mem p (a % 8) else v.mem a)
  all_stored p v a = ground (arith, all_bits_lem p.buf_bits (a % 8) (omega arith), here)
    where
      here : a / 8 ≡ p.block → v.mem (p.block * 8 + a % 8) ≡ v.mem a
      here e = ap v.mem (omega arith)

  apply_reader :
      (p : Page) (v : Vmem)
      → tm_page_has_wrlocked_frame p ≡ false
      → apply_page lookup p v ≡ (v, true)
  unfolding apply_page
  apply_reader p v r = ground arith

  abbrev committed : Page → Vmem → Vmem
  committed p v = record v {
    mem =
        if all_buf_bits_set (λ i. true) && all_buf_bits_set p.buf_bits
        then write_frame p (λ i. true) v
        else write_frame p (λ i. true && p.buf_bits i) v;
    error = lookup p.block v.error;
  }

  apply_writer :
      (p : Page) (v : Vmem)
      → tm_page_has_wrlocked_frame p ≡ true
      → p.write_through ≡ false
      → p.discarded ≡ false
      → is_set (lookup p.block v.error) ≡ false
      → apply_page lookup p v ≡ (committed p v, true)
  unfolding apply_page store_page tm_page_st tm_failed
  apply_writer p v w t d found =
      if_true (tm_page_has_wrlocked_frame p && (not p.write_through && not p.discarded)) _ _
        (ground arith)
      ∙ ap (λ w. (w, not (is_set w.error))) (if_false (is_set (lookup p.block v.error)) _ _ found)
      ∙ ap (λ b. (committed p v, not b)) found

  read_clean :
      (p : Page) (v : Vmem) (a : ℕ)
      → IsGood v.mem p
      → tm_page_has_wrlocked_frame p ≡ false
      → v.mem a ≡ (if (a / 8) == p.block then page_view v.mem p (a % 8) else v.mem a)
  read_clean p v a g r = ground (arith, g.clean (a % 8) (omega arith) r, here)
    where
      here : a / 8 ≡ p.block → v.mem (p.block * 8 + a % 8) ≡ v.mem a
      here e = ap v.mem (omega arith)

  module _
      (frames_found : (b : ℕ) (e : Error) → is_set e ≡ false → is_set (lookup b e) ≡ false) where
    -- The commit of one page stores what the transaction sees of it.
    apply_page_lem :
        (p : Page) (v : Vmem)
        → IsGood v.mem p
        → tm_failed v ≡ false
        → (apply_page lookup p v).1 ≡ true
          × tm_failed (apply_page lookup p v).0 ≡ false
          × ((a : ℕ)
              → ((apply_page lookup p v).0).mem a
                ≡ (if (a / 8) == p.block then page_view v.mem p (a % 8) else v.mem a))
    unfolding tm_failed
    apply_page_lem p v g fine = elim (Bool-cases (tm_page_has_wrlocked_frame p)) [
      | inl writer ↦
          let eq = apply_writer p v writer g.through g.keeps (frames_found p.block v.error fine) in
          (
            ap (λ w. w.1) eq,
            ap (λ (w : Vmem × Bool). is_set (w.0).error) eq ∙ frames_found p.block v.error fine,
            λ a. ap (λ (w : Vmem × Bool). (w.0).mem a) eq ∙ all_stored p v a,
          )
      | inr reader ↦
          let eq = apply_reader p v reader in
          (
            ap (λ w. w.1) eq,
            ap (λ (w : Vmem × Bool). is_set (w.0).error) eq ∙ fine,
            λ a. ap (λ (w : Vmem × Bool). (w.0).mem a) eq ∙ read_clean p v a g reader,
          )
    ]

    module _ (p : Page) (v : Vmem) (g : IsGood v.mem p) (fine : tm_failed v ≡ false) where
      -- The pages behind this one are not touched by its commit.
      behind :
          (ps : List Page) (c i : ℕ) (q : Page)
          → IsSorted (suc p.block) ps
          → find_page c ps ≡ some q
          → i < 8
          → ((apply_page lookup p v).0).mem (q.block * 8 + i) ≡ v.mem (q.block * 8 + i)
      behind ps c i q s f l =
          (apply_page_lem p v g fine).2 (q.block * 8 + i)
          ∙ if_false (((q.block * 8 + i) / 8) == p.block) _ _
              (ground (arith, find_page_above (suc p.block) c ps q s f, find_page-block c ps q f))

      behind-IsGood :
          (ps : List Page) (c : ℕ) (q : Page)
          → IsSorted (suc p.block) ps
          → find_page c ps ≡ some q
          → IsGood v.mem q
          → IsGood ((apply_page lookup p v).0).mem q
      behind-IsGood ps c q s f good = record {
        through = good.through;
        keeps = good.keeps;
        clean = λ i l free own. good.clean i l free own ∙ sym (behind ps c i q s f l);
      }

      -- What is seen behind the page, and what is seen with it.
      behind-seen :
          (ps : List Page) (a : ℕ) (o : Option Page)
          → IsSorted (suc p.block) ps
          → find_page (a / 8) ps ≡ o
          → seen ((apply_page lookup p v).0).mem o a ≡ seen v.mem (find_page (a / 8) (p ∷ ps)) a
      behind-seen ps a (some q) s f =
          ap (λ m. if q.buf_bits (a % 8) then q.buf (a % 8) else m)
            (behind ps (a / 8) (a % 8) q s f (omega arith))
          ∙ ap (λ o. seen v.mem o a) (sym (find_page_tail (a / 8) p q ps s f))
      behind-seen ps a none s f =
          (apply_page_lem p v g fine).2 a ∙ elim (Bool-cases ((a / 8) == p.block)) [
            | inl here ↦
                if_true ((a / 8) == p.block) _ _ here
                ∙ ap (λ o. seen v.mem o a)
                    (sym (
                      ap (λ b. find_page b (p ∷ ps)) (==→eq (a / 8) p.block here)
                      ∙ find_page_head p ps))
            | inr there ↦
                if_false ((a / 8) == p.block) _ _ there
                ∙ ap (λ o. seen v.mem o a) (sym (find_page-none (a / 8) p ps f there))
          ]

    -- The commit of a list of pages stores what the transaction sees.
    apply_pages_lem :
        (lo : ℕ) (ps : List Page) (v : Vmem)
        → IsSorted lo ps
        → ((b : ℕ) (p : Page) → find_page b ps ≡ some p → IsGood v.mem p)
        → tm_failed v ≡ false
        → (a : ℕ)
        → (walk_pages lookup (apply_page lookup) ps v).mem a ≡ seen v.mem (find_page (a / 8) ps) a
    unfolding walk_pages
    apply_pages_lem lo [] v s goods fine a =
        ap (λ o. seen v.mem o a) (sym (find_page_empty (a / 8)))
    apply_pages_lem lo (p ∷ ps) v s goods fine a =
        let g = goods p.block p (find_page_head p ps) in
        ap (λ (w : Vmem). w.mem a)
          (if_true (apply_page lookup p v).1 _ _ (apply_page_lem p v g fine).0)
        ∙ apply_pages_lem (suc p.block) ps (apply_page lookup p v).0 s.1
            (λ c q f.
              behind-IsGood p v g fine ps c q s.1 f (goods c q (find_page_tail c p q ps s.1 f)))
            (apply_page_lem p v g fine).1 a
        ∙ behind-seen p v g fine ps a (find_page (a / 8) ps) s.1 refl

module _ (lookup : ℕ → Error → Error) (wait : ℕ → Attempt → Attempt)
    (malloc : List Page → Bool) where
  -- The loads and stores of a transaction that starts on a memory come back. Either they end with an
  -- error; or the commit leaves the memory that the same stores on the memory itself leave, and the loads
  -- have read what the same loads on the memory itself read. The frames of the blocks must be there at the
  -- commit.
  pub tm_vmem_tx_apply-run_accesses :
      (accesses : List Access) (alloced : ℕ) (v : Vmem)
      → ((b : ℕ) (e : Error) → is_set e ≡ false → is_set (lookup b e) ≡ false)
      → (answers : List (List ℕ)) × (t : VmemTx) × (run_accesses lookup wait malloc accesses
            (fresh_tx alloced v)
          ≡ some (answers, t))
        × ((tm_failed t.vmem ≡ true)
            ⊎ ((answers, (tm_vmem_tx_apply lookup t).vmem.mem) ≡ run_directly accesses v.mem))
  unfolding tm_vmem_tx_apply
  tm_vmem_tx_apply-run_accesses accesses alloced v found =
      let (answers, t, eq, c, mem, outcome) =
        run_accesses_lem lookup wait malloc accesses (fresh_tx alloced v)
          (fresh-IsConsistent alloced v) in
      (
        answers,
        t,
        eq,
        elim outcome [
          | inl bad ↦ inl bad
          | inr both ↦ inr (
              ap (λ m. (answers, m))
                (fun_ext
                  (apply_pages_lem lookup found 0 t.active_pages t.vmem c.sorted c.goods both.0))
              ∙ both.1
              ∙ ap (run_directly accesses) (fresh_view alloced v))
        ],
      )

  -- The loads and stores of a transaction that starts on a memory come back, and leave the memory as it
  -- was; the rollback leaves the memory as it was too, whether or not they have ended with an error.
  pub tm_vmem_tx_undo-run_accesses :
      (accesses : List Access) (alloced : ℕ) (v : Vmem)
      → (answers : List (List ℕ)) × (t : VmemTx) × (run_accesses lookup wait malloc accesses
            (fresh_tx alloced v)
          ≡ some (answers, t))
        × (t.vmem.mem ≡ v.mem)
        × ((tm_vmem_tx_undo lookup t).vmem.mem ≡ v.mem)
  unfolding tm_vmem_tx_undo
  tm_vmem_tx_undo-run_accesses accesses alloced v =
      let (answers, t, eq, c, mem, outcome) =
        run_accesses_lem lookup wait malloc accesses (fresh_tx alloced v)
          (fresh-IsConsistent alloced v) in
      (
        answers,
        t,
        eq,
        mem,
        ap (λ w. w.mem)
              (undo_pages_lem lookup 0 t.active_pages t.vmem c.sorted
                (λ b p f. (c.goods b p f).through))
            ∙ mem,
      )
