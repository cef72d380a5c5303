-- ===== src/Tm/Session.antt =====
-- modules/tm/src/vmem_tx.c: the accesses of one transaction, one after the other. The transaction is over
-- at the first error, as picotm then restarts it.
use picotm.Prelude.{
  ℕ, ◌≡◌, ◌⊎◌, inl, inr, refl, ◌∙◌, ap, ap₂, fun_ext, Bool, true, false, Option, some, none-ne-some,
  ◌>>=◌, List, [], ◌∷◌, length, if◌then◌else◌, Bool-cases, arith,
}
use picotm.Error.{Error}
use picotm.Rwlock.Wait.{Attempt}
use picotm.Tm.{Page, Vmem}
use picotm.Tm.Transaction.{VmemTx, tm_failed, find_page, copy_in, read_range}
use picotm.Tm.Ranges.{tm_vmem_tx_ld, tm_vmem_tx_st}
use picotm.Tm.Seen.{tx_view, IsConsistent}
use picotm.Tm.Loops.{tm_vmem_tx_ld_lem, tm_vmem_tx_st_lem}

pub data Access : Type 0 where
  load : ℕ → ℕ → Access
  store : ℕ → List ℕ → Access

-- The same accesses on the memory itself: what the loads read, and the memory after the stores.
unfoldable pub run_directly : List Access → (ℕ → ℕ) → List (List ℕ) × (ℕ → ℕ)
run_directly [] mem = ([], mem)
run_directly (load addr siz ∷ rest) mem =
    let (answers, mem') = run_directly rest mem in (read_range mem addr siz ∷ answers, mem')
run_directly (store addr bytes ∷ rest) mem = run_directly rest (copy_in mem addr bytes)

-- A transaction that has not used any memory yet.
abbrev pub fresh_tx : ℕ → Vmem → VmemTx
fresh_tx alloced v = record { active_pages = []; alloced_pages = alloced; vmem = v }

pub fresh-IsConsistent : (alloced : ℕ) (v : Vmem) → IsConsistent (fresh_tx alloced v)
unfolding find_page
fresh-IsConsistent alloced v = record { sorted = tt; goods = λ b p h. absurd (none-ne-some p h) }

pub fresh_view : (alloced : ℕ) (v : Vmem) → tx_view (fresh_tx alloced v) ≡ v.mem
unfolding find_page
fresh_view alloced v = refl

module _ (lookup : ℕ → Error → Error) (wait : ℕ → Attempt → Attempt)
    (malloc : List Page → Bool) where
  -- Each access is given as much fuel as it has bytes.
  unfoldable pub run_accesses : List Access → VmemTx → Option (List (List ℕ) × VmemTx)
  run_accesses [] self = some ([], self)
  run_accesses (load addr siz ∷ rest) self =
      tm_vmem_tx_ld lookup wait malloc siz addr siz self >>= λ (bytes, self').
      let later = run_accesses rest self' in
      if tm_failed self'.vmem
      then some ([], self')
      else (later >>= λ (answers, self''). some (bytes ∷ answers, self''))
  run_accesses (store addr bytes ∷ rest) self =
      tm_vmem_tx_st lookup wait malloc (length bytes) addr bytes self >>= λ self'.
      let later = run_accesses rest self' in
      if tm_failed self'.vmem then some ([], self') else later

  -- What is expected of a run: the answers, the state, and the comparison with the run on the memory itself.
  abbrev pub Runs : List Access → VmemTx → Option (List (List ℕ) × VmemTx) → Type 0
  Runs accesses t o =
      (answers : List (List ℕ)) × (t' : VmemTx) × (o ≡ some (answers, t'))
      × IsConsistent t'
      × t'.vmem.mem ≡ t.vmem.mem
      × ((tm_failed t'.vmem ≡ true)
          ⊎ (tm_failed t'.vmem ≡ false × (answers, tx_view t') ≡ run_directly accesses (tx_view t)))

  pub run_accesses_lem :
      (accesses : List Access) (t : VmemTx)
      → IsConsistent t
      → Runs accesses t (run_accesses accesses t)
  unfolding run_accesses run_directly
  run_accesses_lem [] t c = elim (Bool-cases (tm_failed t.vmem)) [
    | inl bad ↦ ([], t, refl, c, refl, inl bad)
    | inr ok ↦ ([], t, refl, c, refl, inr (ok, refl))
  ]
  run_accesses_lem (load addr siz ∷ rest) t c =
      let (bytes, t', eq, steady, right) =
        tm_vmem_tx_ld_lem lookup wait malloc siz addr siz t c (omega arith) in
      elim (Bool-cases (tm_failed t'.vmem)) [
        | inl bad ↦ ([], t', rw (eq, bad) refl, steady.consistent, steady.same_mem, inl bad)
        | inr ok ↦
            let (answers, t'', eq', c', mem, outcome) =
              run_accesses_lem rest t' steady.consistent in
            (
              bytes ∷ answers,
              t'',
              rw (eq, ok, eq') refl,
              c',
              mem ∙ steady.same_mem,
              elim outcome [
                | inl bad ↦ inl bad
                | inr both ↦ inr (
                  both.0,
                  ap (λ r. (bytes ∷ r.0, r.1)) both.1
                      ∙ ap₂ (λ b f. (b ∷ (run_directly rest f).0, (run_directly rest f).1))
                          (right ok) (fun_ext steady.same_view),
                )
              ],
            )
      ]
  run_accesses_lem (store addr bytes ∷ rest) t c =
      let (t', eq, c1, mem1, right) =
        tm_vmem_tx_st_lem lookup wait malloc (length bytes) addr bytes t c (omega arith) in
      elim (Bool-cases (tm_failed t'.vmem)) [
        | inl bad ↦ ([], t', rw (eq, bad) refl, c1, mem1, inl bad)
        | inr ok ↦
            let (answers, t'', eq', c', mem, outcome) = run_accesses_lem rest t' c1 in
            (
              answers,
              t'',
              rw (eq, ok) eq',
              c',
              mem ∙ mem1,
              elim outcome [
                | inl bad ↦ inl bad
                | inr both ↦ inr (both.0, both.1 ∙ ap (run_directly rest) (fun_ext (right ok)))
              ],
            )
      ]
