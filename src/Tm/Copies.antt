-- ===== src/Tm/Copies.antt =====
-- modules/tm/src/vmem_tx.c: the bytes of a range that one round copies.
use picotm.Prelude.{
  ℕ, ◌+◌, ◌-◌, ◌*◌, ◌/◌, ◌%◌, ◌≤◌, ◌<◌, ◌≡◌, ◌∙◌, sym, ap, inl, inr, arith, true, false, true≢false,
  some, List, length, if_true, if_false, Bool-cases, ltb, ◌⊎◌, ◌==◌, ==→eq,
}
use picotm.Tm.{Page, tm_page_buffer}
use picotm.Tm.Transaction.{VmemTx, find_page, set_page, with_page, copy_in}
use picotm.Tm.Pages.{find_page-block}
use picotm.Tm.Bytes.{copy_in-outside, copy_in-shift}
use picotm.Tm.Lock.{page_view}
use picotm.Tm.Access.{HasRange}
use picotm.Tm.Transaction.{read_range, page_diff}
use picotm.Tm.Bytes.{read_range-shift}
use picotm.Tm.Seen.{tx_view, seen, IsConsistent, find_page-set_found, find_page-set_other}

-- An address of a block that has an active page: the transaction sees the page's byte.
seen_in_block :
    (t : VmemTx) (b : ℕ) (p : Page) (a : ℕ)
    → find_page b t.active_pages ≡ some p
    → a / 8 ≡ b
    → tx_view t a ≡ page_view t.vmem.mem p (a % 8)
seen_in_block t b p a f e =
    ap (λ o. seen t.vmem.mem o a) (ap (λ x. find_page x t.active_pages) e ∙ f)

-- A byte that a page has: the transaction sees the byte of the buffer.
buffered :
    (t : VmemTx) (b : ℕ) (p : Page) (i : ℕ)
    → find_page b t.active_pages ≡ some p
    → i < 8
    → p.buf_bits i ≡ true
    → tx_view t (b * 8 + i) ≡ p.buf i
buffered t b p i f l has =
    seen_in_block t b p (b * 8 + i) f (omega arith)
    ∙ ap (page_view t.vmem.mem p) (omega arith)
    ∙ if_true (p.buf_bits i) _ _ has

-- A round stays in the range and in the block.
pub page_diff_le :
    (p : Page) (addr siz : ℕ)
    → p.block ≡ addr / 8
    → page_diff p addr siz ≤ siz × addr % 8 + page_diff p addr siz ≤ 8
page_diff_le p addr siz e = ground arith

pub page_diff_pos :
    (p : Page) (addr siz : ℕ) → p.block ≡ addr / 8 → 0 < siz → 0 < page_diff p addr siz
page_diff_pos p addr siz e pos = ground arith

offset_lem : (p : Page) (addr : ℕ) → p.block ≡ addr / 8 → addr - p.block * 8 ≡ addr % 8
offset_lem p addr e = omega arith

-- A round of a load reads what the transaction sees.
pub round_reads :
    (t : VmemTx) (p : Page) (addr siz : ℕ)
    → IsConsistent t
    → find_page (addr / 8) t.active_pages ≡ some p
    → HasRange addr siz p
    → read_range (tm_page_buffer p t.vmem) (addr - p.block * 8) (page_diff p addr siz)
      ≡ read_range (tx_view t) addr (page_diff p addr siz)
round_reads t p addr siz c f has =
    ap (λ a. read_range (tm_page_buffer p t.vmem) a (page_diff p addr siz))
      (offset_lem p addr block)
    ∙ read_range-shift (tm_page_buffer p t.vmem) (tx_view t) (addr / 8 * 8) (addr % 8)
        (page_diff p addr siz)
        (λ i from to.
          if_false p.write_through _ _ (c.goods (addr / 8) p f).through
          ∙ sym (
              buffered t (addr / 8) p i f (in_block i to)
                (has i (in_block i to) from (omega (arith, page_diff_le p addr siz block)))))
    ∙ ap (λ a. read_range (tx_view t) a (page_diff p addr siz)) (omega arith)
  where
    block : p.block ≡ addr / 8
    block = find_page-block (addr / 8) t.active_pages p f

    in_block : (i : ℕ) → i < addr % 8 + page_diff p addr siz → i < 8
    in_block i to = omega (arith, page_diff_le p addr siz block)

-- The page after a round of a store, and the state.
abbrev pub stored_page : Page → ℕ → List ℕ → Page
stored_page p head bs = record p { buf = copy_in p.buf head bs }

-- The same on the page alone, at an offset of the block.
written_byte :
    (t : VmemTx) (p : Page) (addr siz : ℕ) (bs : List ℕ) (i : ℕ)
    → find_page (addr / 8) t.active_pages ≡ some p
    → HasRange addr siz p
    → length bs ≤ siz
    → i < 8
    → page_view t.vmem.mem (stored_page p (addr % 8) bs) i
      ≡ copy_in (tx_view t) addr bs (addr / 8 * 8 + i)
written_byte t p addr siz bs i f has le l = elim (Bool-cases (p.buf_bits i)) [
  | inl own ↦
      if_true (p.buf_bits i) _ _ own
      ∙ copy_in-shift p.buf (tx_view t) (addr / 8 * 8) (addr % 8) bs i
          (sym (buffered t (addr / 8) p i f l own))
      ∙ ap (λ a. copy_in (tx_view t) a bs (addr / 8 * 8 + i)) (omega arith)
  | inr foreign ↦
      if_false (p.buf_bits i) _ _ foreign
      ∙ sym (if_false (p.buf_bits i) _ _ foreign)
      ∙ ap (page_view t.vmem.mem p) (omega arith)
      ∙ sym (seen_in_block t (addr / 8) p (addr / 8 * 8 + i) f (omega arith))
      ∙ sym (copy_in-outside (tx_view t) addr bs (addr / 8 * 8 + i) (outside foreign))
]
  where
    outside :
        p.buf_bits i ≡ false → (addr / 8 * 8 + i < addr) ⊎ (addr + length bs ≤ addr / 8 * 8 + i)
    outside foreign = elim (Bool-cases (ltb (addr / 8 * 8 + i) addr)) [
      | inl below ↦ inl (ground arith)
      | inr above ↦ elim (Bool-cases (ltb (addr / 8 * 8 + i) (addr + length bs))) [
        | inl inside ↦ absurd (true≢false (sym (has i l (ground arith) (ground arith)) ∙ foreign))
        | inr beyond ↦ inr (ground arith)
      ]
    ]

-- A round of a store changes what the transaction sees at the bytes stored.
pub round_writes :
    (t : VmemTx) (p : Page) (addr siz : ℕ) (bs : List ℕ)
    → find_page (addr / 8) t.active_pages ≡ some p
    → HasRange addr siz p
    → length bs ≤ siz
    → addr % 8 + length bs ≤ 8
    → (a : ℕ)
    → tx_view (with_page t (stored_page p (addr % 8) bs) t.vmem) a ≡ copy_in (tx_view t) addr bs a
round_writes t p addr siz bs f has le fits a = elim (Bool-cases ((a / 8) == (addr / 8))) [
  | inl same ↦
      ap (λ o. seen t.vmem.mem o a)
        (ap (λ b. find_page b (set_page (stored_page p (addr % 8) bs) t.active_pages))
            (==→eq (a / 8) (addr / 8) same)
          ∙ find_page-set_found (addr / 8) p (stored_page p (addr % 8) bs) t.active_pages f block)
      ∙ written_byte t p addr siz bs (a % 8) f has le (omega arith)
      ∙ ap (copy_in (tx_view t) addr bs) (rebuilt (==→eq (a / 8) (addr / 8) same))
  | inr other ↦
      ap (λ o. seen t.vmem.mem o a)
        (find_page-set_other (addr / 8) (a / 8) (stored_page p (addr % 8) bs) t.active_pages block
          other)
      ∙ sym (copy_in-outside (tx_view t) addr bs a (ground arith))
]
  where
    block : p.block ≡ addr / 8
    block = find_page-block (addr / 8) t.active_pages p f

    rebuilt : a / 8 ≡ addr / 8 → addr / 8 * 8 + a % 8 ≡ a
    rebuilt e = omega arith
