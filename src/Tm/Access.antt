-- ===== src/Tm/Access.antt =====
-- modules/tm/src/vmem_tx.c: how a page is prepared for a load or a store.
use picotm.Prelude.{
  ℕ, ◌+◌, ◌%◌, ◌≤◌, ◌<◌, ◌≡◌, refl, ◌∙◌, sym, ap, subst, inl, inr, arith, true, false, true≢false,
  if_true, if_false, Bool-cases,
}
use picotm.Error.{Error, is_set}
use picotm.Rwlock.Accounting.{rwstate_try_wrlock_lem}
use picotm.Rwlock.Threads.{Held, unlocked, rdlocked, wrlocked}
use picotm.Rwlock.State.{is_wrlocked, rwstate_try_rdlock, rwstate_try_wrlock}
use picotm.Rwlock.Wait.{Attempt}
use picotm.Tm.{
  Page, Vmem, tm_page_is_complete, tm_page_has_rdlocked_frame, tm_page_has_wrlocked_frame,
  after_attempt, tm_page_try_rdlock_frame, tm_page_try_wrlock_frame,
}
use picotm.Tm.Transaction.{tm_failed, copy_bits}
use picotm.Tm.Ranges.{fill_page, when_fine, prepare_page_ld, prepare_page_st}
use picotm.Tm.Bytes.{copy_bits-range}
use picotm.Tm.Lock.{
  Kept, Kept-refl, Kept-trans, IsGood, all_bits_lem, tm_page_ld_lem, after_attempt-Kept,
}

-- The buffer has the bytes of a range that lie in the block.
abbrev pub HasRange : ℕ → ℕ → Page → Type 0
HasRange addr siz p = (i : ℕ) → i < 8 → addr % 8 ≤ i → i < addr % 8 + siz → p.buf_bits i ≡ true

module _ (lookup : ℕ → Error → Error) (wait : ℕ → Attempt → Attempt) where
  fill_page_lem :
      (addr siz : ℕ) (p : Page) (v : Vmem)
      → IsGood v.mem p
      → Kept p v (fill_page lookup wait addr siz (p, v)).0 (fill_page lookup wait addr siz (p, v)).1
        × ((fill_page lookup wait addr siz (p, v)).0).status ≡ p.status
        × (tm_failed (fill_page lookup wait addr siz (p, v)).1 ≡ false
            → HasRange addr siz (fill_page lookup wait addr siz (p, v)).0)
  unfolding fill_page
  fill_page_lem addr siz p v g = elim (Bool-cases (tm_page_is_complete p)) [
    | inl full ↦
        rw full (Kept-refl p v v refl g, refl, λ fine i l from to. all_bits_lem p.buf_bits i l full)
    | inr more ↦
        let (kept, same, loaded) = tm_page_ld_lem lookup p (copy_bits addr siz) v g in
        rw more
          (kept, same, λ fine i l from to. loaded fine i (copy_bits-range addr siz i l from to))
  ]

  -- After an attempt on the lock: the page is filled unless the attempt reports an error.
  attempted_lem :
      (addr siz : ℕ) (p : Page) (v : Vmem) (r : Page × Vmem)
      → Kept p v r.0 r.1
      → let r' = when_fine lookup wait (fill_page lookup wait addr siz) r in
        Kept p v r'.0 r'.1
        × (tm_failed r'.1 ≡ false
            → HasRange addr siz r'.0 × (r'.0).status ≡ (r.0).status × tm_failed r.1 ≡ false)
  unfolding when_fine
  attempted_lem addr siz p v (q, w) k = elim (Bool-cases (tm_failed w)) [
    | inl bad ↦ rw bad (k, λ fine. absurd (true≢false (sym bad ∙ fine)))
    | inr ok ↦
        let (kept, same, loaded) = fill_page_lem addr siz q w k.good in
        rw ok (
          Kept-trans p v q w (fill_page lookup wait addr siz (q, w)).0
              (fill_page lookup wait addr siz (q, w)).1 k kept,
          λ fine. (loaded fine, same, refl),
        )
  ]

  rdlocked_lem :
      (p : Page) (v : Vmem)
      → IsGood v.mem p
      → tm_page_has_wrlocked_frame p ≡ false
      → Kept p v
          (tm_page_try_rdlock_frame lookup wait p v).0
          (tm_page_try_rdlock_frame lookup wait p v).1
  unfolding tm_page_try_rdlock_frame
  rdlocked_lem p v g h = elim (Bool-cases (is_set (lookup p.block v.error))) [
    | inl bad ↦ rw bad (Kept-refl p v (record v { error = lookup p.block v.error }) refl g)
    | inr ok ↦ rw ok (
        after_attempt-Kept lookup p v
          (rwstate_try_rdlock p.block (wait p.block) (record {
            status = p.status;
            attempt = record { word = v.words p.block; error = lookup p.block v.error };
          }))
          g h)
  ]

  -- A transaction that has tried to lock for writing, and sees no error, holds the lock for writing.
  after_wrlock :
      (p : Page) (v : Vmem) (h : Held) (a : Attempt)
      → let r =
          after_attempt lookup p v
            (rwstate_try_wrlock p.block (wait p.block) (record { status = h; attempt = a })) in
        tm_failed r.1 ≡ false → tm_page_has_wrlocked_frame (r.0) ≡ true
  unfolding after_attempt tm_failed
  after_wrlock p v unlocked a =
      rw (rwstate_try_wrlock_lem p.block (wait p.block) unlocked a) (λ ok. ground arith)
  after_wrlock p v rdlocked a =
      rw (rwstate_try_wrlock_lem p.block (wait p.block) rdlocked a) (λ ok. ground arith)
  after_wrlock p v wrlocked a =
      rw (rwstate_try_wrlock_lem p.block (wait p.block) wrlocked a) (λ ok. refl)

  wrlocked_lem :
      (p : Page) (v : Vmem)
      → IsGood v.mem p
      → tm_page_has_wrlocked_frame p ≡ false
      → let r = tm_page_try_wrlock_frame lookup wait p v in
        Kept p v r.0 r.1 × (tm_failed r.1 ≡ false → tm_page_has_wrlocked_frame r.0 ≡ true)
  unfolding tm_page_try_wrlock_frame tm_failed
  wrlocked_lem p v g h = elim (Bool-cases (is_set (lookup p.block v.error))) [
    | inl bad ↦ rw bad (
      Kept-refl p v (record v { error = lookup p.block v.error }) refl g,
      λ fine. failing bad fine,
    )
    | inr ok ↦
        let a : Attempt = record { word = v.words p.block; error = lookup p.block v.error } in
        rw ok (
          after_attempt-Kept lookup p v
              (rwstate_try_wrlock p.block (wait p.block)
                (record { status = p.status; attempt = a }))
              g h,
          after_wrlock p v p.status a,
        )
  ]
    where
      failing :
          is_set (lookup p.block v.error) ≡ true
          → tm_failed (record v { error = lookup p.block v.error }) ≡ false
          → tm_page_has_wrlocked_frame p ≡ true
      failing bad fine = absurd (true≢false (sym bad ∙ fine))

  -- What a prepared page offers: the range, and, for a store, the lock for writing.
  pub prepare_page_ld_lem :
      (addr siz : ℕ) (p : Page) (v : Vmem)
      → IsGood v.mem p
      → let r = prepare_page_ld lookup wait addr siz (p, v) in
        Kept p v r.0 r.1 × (tm_failed r.1 ≡ false → HasRange addr siz r.0)
  unfolding prepare_page_ld
  prepare_page_ld_lem addr siz p v g =
      subst Prepared (sym (if_false p.discarded _ _ g.keeps))
        (elim (Bool-cases (tm_page_has_rdlocked_frame p)) [
          | inl locked ↦
              let (kept, same, has) = fill_page_lem addr siz p v g in
              subst Prepared (sym (if_true (tm_page_has_rdlocked_frame p) _ _ locked)) (kept, has)
          | inr free ↦
              let (kept, after) =
                attempted_lem addr siz p v (tm_page_try_rdlock_frame lookup wait p v)
                  (rdlocked_lem p v g (ground arith)) in
              subst Prepared (sym (if_false (tm_page_has_rdlocked_frame p) _ _ free))
                (kept, λ fine. (after fine).0)
        ])
    where
      Prepared : Page × Vmem → Type 0
      Prepared r = Kept p v r.0 r.1 × (tm_failed r.1 ≡ false → HasRange addr siz r.0)

  pub prepare_page_st_lem :
      (addr siz : ℕ) (p : Page) (v : Vmem)
      → IsGood v.mem p
      → let r = prepare_page_st lookup wait addr siz (p, v) in
        Kept p v r.0 r.1
        × (tm_failed r.1 ≡ false → HasRange addr siz r.0 × tm_page_has_wrlocked_frame r.0 ≡ true)
  unfolding prepare_page_st
  prepare_page_st_lem addr siz p v g =
      subst Prepared (sym (if_false p.discarded _ _ g.keeps))
        (elim (Bool-cases (tm_page_has_wrlocked_frame p)) [
          | inl locked ↦
              let (kept, same, has) = fill_page_lem addr siz p v g in
              subst Prepared (sym (if_true (tm_page_has_wrlocked_frame p) _ _ locked))
                (kept, λ fine. (has fine, ap is_wrlocked same ∙ locked))
          | inr free ↦
              let (kept, held) = wrlocked_lem p v g free in
              let (kept', after) =
                attempted_lem addr siz p v (tm_page_try_wrlock_frame lookup wait p v) kept in
              subst Prepared (sym (if_false (tm_page_has_wrlocked_frame p) _ _ free)) (
                kept',
                λ fine. ((after fine).0, ap is_wrlocked (after fine).1 ∙ held (after fine).2),
              )
        ])
    where
      Prepared : Page × Vmem → Type 0
      Prepared r =
          Kept p v r.0 r.1
          × (tm_failed r.1 ≡ false → HasRange addr siz r.0 × tm_page_has_wrlocked_frame r.0 ≡ true)
