-- ===== src/Tm/Lock.antt =====
-- modules/tm/src/page.c: what the accesses to one page keep.
use picotm.Prelude.{
  ℕ, ◌+◌, ◌*◌, ◌<◌, ◌≡◌, refl, ◌∙◌, sym, subst, ap, inl, inr, arith, Bool, true, false, true≢false,
  not, Option, none, some, if◌then◌else◌, Bool-cases,
}
use picotm.Error.{Error, is_set, is_set-mark, mark_as_non_recoverable}
use picotm.Rwlock.State.{Rwstate, is_wrlocked}
use picotm.Tm.{
  Page, Vmem, loaded_buf, tm_page_init, tm_page_ld, all_buf_bits_set, no_buf_bits_set,
  tm_page_has_wrlocked_frame, after_attempt,
}
use picotm.Tm.Transaction.{tm_failed}
use picotm.Tm.Bytes.{holds_to, holds_to_lem}

-- The byte of a block that the transaction sees.
abbrev pub page_view : (ℕ → ℕ) → Page → ℕ → ℕ
page_view mem p i = if p.buf_bits i then p.buf i else mem (p.block * 8 + i)

-- A page in neither of the special modes. Without the writer lock its buffer has the bytes of the memory.
pub record IsGood (mem : ℕ → ℕ) (p : Page) : Type 0 where
  pub through : p.write_through ≡ false
  pub keeps : p.discarded ≡ false
  pub clean :
      (i : ℕ)
      → i < 8
      → is_wrlocked p.status ≡ false
      → p.buf_bits i ≡ true
      → p.buf i ≡ mem (p.block * 8 + i)

-- What an access to a page leaves as it was.
pub record Kept (p : Page) (v : Vmem) (p' : Page) (v' : Vmem) : Type 0 where
  pub same_mem : v'.mem ≡ v.mem
  pub same_block : p'.block ≡ p.block
  pub good : IsGood v'.mem p'
  pub same_view : (i : ℕ) → i < 8 → page_view v'.mem p' i ≡ page_view v.mem p i

pub init-IsGood : (mem : ℕ → ℕ) (b : ℕ) → IsGood mem (tm_page_init b)
init-IsGood mem b = record {
  through = refl;
  keeps = refl;
  clean = λ i l w h. absurd (true≢false (sym h));
}

pub Kept-refl : (p : Page) (v v' : Vmem) → v'.mem ≡ v.mem → IsGood v.mem p → Kept p v p v'
Kept-refl p v v' e g = record {
  same_mem = e;
  same_block = refl;
  good = subst (λ m. IsGood m p) (sym e) g;
  same_view = λ i l. ap (λ m. page_view m p i) e;
}

pub Kept-trans :
    (p : Page) (v : Vmem) (p' : Page) (v' : Vmem) (p'' : Page) (v'' : Vmem)
    → Kept p v p' v'
    → Kept p' v' p'' v''
    → Kept p v p'' v''
Kept-trans p v p' v' p'' v'' h k = record {
  same_mem = k.same_mem ∙ h.same_mem;
  same_block = k.same_block ∙ h.same_block;
  good = k.good;
  same_view = λ i l. k.same_view i l ∙ h.same_view i l;
}

pub all_bits_lem : (bits : ℕ → Bool) (i : ℕ) → i < 8 → all_buf_bits_set bits ≡ true → bits i ≡ true
unfolding holds_to
all_bits_lem bits i l h = holds_to_lem bits 8 i l (ground arith)

no_bits_lem : (bits : ℕ → Bool) (i : ℕ) → i < 8 → no_buf_bits_set bits ≡ true → bits i ≡ false
unfolding holds_to
no_bits_lem bits i l h = not_true (bits i) (holds_to_lem (λ j. not (bits j)) 8 i l (ground arith))
  where
    not_true : (b : Bool) → not b ≡ true → b ≡ false
    not_true b e = ground arith

module _ (lookup : ℕ → Error → Error) where
  -- A load that reports no error has the bytes it asks for; in any case the view stays.
  -- The buffer after a load: a byte that it has stays, one that is asked for comes from memory.
  loaded_lem :
      (p : Page) (bits : ℕ → Bool) (v : Vmem) (i : ℕ)
      → i < 8
      → loaded_buf lookup p bits v i
        ≡ (if p.buf_bits i then p.buf i else if bits i then v.mem (p.block * 8 + i) else p.buf i)
  loaded_lem p bits v i l = ground (arith, all_bits_lem bits i l, no_bits_lem p.buf_bits i l)

  -- A load that reports no error has the bytes it asks for; in any case the view stays.
  pub tm_page_ld_lem :
      (p : Page) (bits : ℕ → Bool) (v : Vmem)
      → IsGood v.mem p
      → Kept p v (tm_page_ld lookup p bits v).0 (tm_page_ld lookup p bits v).1
        × ((tm_page_ld lookup p bits v).0).status ≡ p.status
        × (tm_failed (tm_page_ld lookup p bits v).1 ≡ false
            → (i : ℕ) → bits i ≡ true
            → ((tm_page_ld lookup p bits v).0).buf_bits i ≡ true)
  unfolding tm_page_ld tm_failed
  tm_page_ld_lem p bits v g = elim (Bool-cases (is_set (lookup p.block v.error))) [
    | inl bad ↦ rw bad (
      Kept-refl p v (record v { error = mark_as_non_recoverable (lookup p.block v.error) }) refl g,
      refl,
      λ fine. absurd (true≢false (sym bad ∙ sym (is_set-mark (lookup p.block v.error)) ∙ fine)),
    )
    | inr ok ↦ rw ok (
      record {
        same_mem = refl;
        same_block = refl;
        good = record {
          through = g.through;
          keeps = g.keeps;
          clean = λ i l w b. loaded_lem p bits v i l ∙ ground (arith, g.clean i l w);
        };
        same_view = λ i l. ground (arith, loaded_lem p bits v i l);
      },
      refl,
      λ fine i h. ground arith,
    )
  ]

  pub after_attempt-Kept :
      (p : Page) (v : Vmem) (r : Option Rwstate)
      → IsGood v.mem p
      → tm_page_has_wrlocked_frame p ≡ false
      → Kept p v (after_attempt lookup p v r).0 (after_attempt lookup p v r).1
  unfolding after_attempt
  after_attempt-Kept p v none g h = Kept-refl p v v refl g
  after_attempt-Kept p v (some s) g h = record {
    same_mem = refl;
    same_block = refl;
    good = record { through = g.through; keeps = g.keeps; clean = λ i l w b. g.clean i l h b };
    same_view = λ i l. refl;
  }
