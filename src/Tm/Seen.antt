-- ===== src/Tm/Seen.antt =====
-- modules/tm/src/vmem_tx.c: the memory that a transaction sees through its active pages.
use picotm.Prelude.{
  ℕ, ◌+◌, ◌*◌, ◌/◌, ◌%◌, ◌≡◌, refl, ◌∙◌, sym, ap, subst, inl, inr, arith, false, Option, none, some,
  some-injective, List, if_true, if_false, Bool-cases, ◌==◌, ==→eq, eq→==,
}
use picotm.Tm.{Page, Vmem, tm_page_init}
use picotm.Tm.Transaction.{VmemTx, find_page, insert_page, set_page, with_page}
use picotm.Tm.Pages.{
  find_page-insert_page, find_page-set_page, find_page-block, IsSorted, insert_page-IsSorted,
  set_page-IsSorted, if_some,
}
use picotm.Tm.Lock.{Kept, IsGood, page_view, init-IsGood}

abbrev pub seen : (ℕ → ℕ) → Option Page → ℕ → ℕ
seen mem none a = mem a
seen mem (some p) a = page_view mem p (a % 8)

-- The byte at an address, as the transaction sees it.
abbrev pub tx_view : VmemTx → ℕ → ℕ
tx_view t a = seen t.vmem.mem (find_page (a / 8) t.active_pages) a

pub record IsConsistent (t : VmemTx) : Type 0 where
  pub sorted : IsSorted 0 t.active_pages
  pub goods : (b : ℕ) (p : Page) → find_page b t.active_pages ≡ some p → IsGood t.vmem.mem p

-- What a step that stores nothing leaves as it was.
pub record Steady (t t' : VmemTx) : Type 0 where
  pub same_mem : t'.vmem.mem ≡ t.vmem.mem
  pub consistent : IsConsistent t'
  pub same_view : (a : ℕ) → tx_view t' a ≡ tx_view t a

pub Steady-trans : (t t' t'' : VmemTx) → Steady t t' → Steady t' t'' → Steady t t''
Steady-trans t t' t'' h k = record {
  same_mem = k.same_mem ∙ h.same_mem;
  consistent = k.consistent;
  same_view = λ a. k.same_view a ∙ h.same_view a;
}

-- A page in the place of one for the same block is found there, and nothing else changes.
pub find_page-set_found :
    (b : ℕ) (p p' : Page) (ps : List Page)
    → find_page b ps ≡ some p
    → p'.block ≡ b
    → find_page b (set_page p' ps) ≡ some p'
find_page-set_found b p p' ps f e =
    find_page-set_page b p' ps
    ∙ if_true (b == p'.block) _ _ (eq→== b p'.block (sym e))
    ∙ ap (λ o. if_some o p') f

pub find_page-set_other :
    (b c : ℕ) (p' : Page) (ps : List Page)
    → p'.block ≡ b
    → (c == b) ≡ false
    → find_page c (set_page p' ps) ≡ find_page c ps
find_page-set_other b c p' ps e other =
    find_page-set_page c p' ps ∙ if_false (c == p'.block) _ _ (ap (λ x. c == x) e ∙ other)

pub set_page-goods :
    (mem : ℕ → ℕ) (b : ℕ) (p p' : Page) (ps : List Page)
    → find_page b ps ≡ some p
    → p'.block ≡ b
    → IsGood mem p'
    → ((c : ℕ) (q : Page) → find_page c ps ≡ some q → IsGood mem q)
    → (c : ℕ) (q : Page) → find_page c (set_page p' ps) ≡ some q
    → IsGood mem q
set_page-goods mem b p p' ps f e good gs c q h = elim (Bool-cases (c == b)) [
  | inl same ↦
      subst (IsGood mem)
        (some-injective _ _ (
          sym (find_page-set_found b p p' ps f e)
          ∙ ap (λ x. find_page x (set_page p' ps)) (sym (==→eq c b same))
          ∙ h))
        good
  | inr other ↦ gs c q (sym (find_page-set_other b c p' ps e other) ∙ h)
]

pub with_page_lem :
    (b : ℕ) (t : VmemTx) (p p' : Page) (v' : Vmem)
    → IsConsistent t
    → find_page b t.active_pages ≡ some p
    → Kept p t.vmem p' v'
    → Steady t (with_page t p' v') × find_page b (set_page p' t.active_pages) ≡ some p'
with_page_lem b t p p' v' c f k = (
  record {
    same_mem = k.same_mem;
    consistent = record {
      sorted = set_page-IsSorted 0 p' t.active_pages c.sorted;
      goods =
          set_page-goods v'.mem b p p' t.active_pages f block k.good
            (λ d q h. subst (λ m. IsGood m q) (sym k.same_mem) (c.goods d q h));
    };
    same_view = λ a. elim (Bool-cases ((a / 8) == b)) [
      | inl same ↦
          ap (λ o. seen v'.mem o a)
            (ap (λ x. find_page x (set_page p' t.active_pages)) (==→eq (a / 8) b same) ∙ there)
          ∙ k.same_view (a % 8) (omega arith)
          ∙ ap (λ o. seen t.vmem.mem o a)
              (sym f ∙ ap (λ x. find_page x t.active_pages) (sym (==→eq (a / 8) b same)))
      | inr other ↦
          ap (λ o. seen v'.mem o a) (find_page-set_other b (a / 8) p' t.active_pages block other)
          ∙ ap (λ m. seen m (find_page (a / 8) t.active_pages) a) k.same_mem
    ];
  },
  there,
)
  where
    block : p'.block ≡ b
    block = k.same_block ∙ find_page-block b t.active_pages p f

    there : find_page b (set_page p' t.active_pages) ≡ some p'
    there = find_page-set_found b p p' t.active_pages f block

-- The page of a block is there after it has been acquired, and nothing else changes.
pub insert_init_lem :
    (b n : ℕ) (t : VmemTx)
    → IsConsistent t
    → find_page b t.active_pages ≡ none
    → Steady t
        (record t { active_pages = insert_page (tm_page_init b) t.active_pages; alloced_pages = n })
insert_init_lem b n t c f = record {
  same_mem = refl;
  consistent = record {
    sorted = insert_page-IsSorted 0 (tm_page_init b) t.active_pages c.sorted (omega arith) f;
    goods = λ d q h. elim (Bool-cases (d == b)) [
      | inl same ↦
          subst (IsGood t.vmem.mem)
            (some-injective _ _ (
              sym (if_true (d == b) _ _ same)
              ∙ sym (find_page-insert_page d (tm_page_init b) t.active_pages)
              ∙ h))
            (init-IsGood t.vmem.mem b)
      | inr other ↦ c.goods d q (
          sym (if_false (d == b) _ _ other)
          ∙ sym (find_page-insert_page d (tm_page_init b) t.active_pages)
          ∙ h)
    ];
  };
  same_view = λ a. elim (Bool-cases ((a / 8) == b)) [
    | inl same ↦
        ap (λ o. seen t.vmem.mem o a)
          (find_page-insert_page (a / 8) (tm_page_init b) t.active_pages
            ∙ if_true ((a / 8) == b) _ _ same)
        ∙ ap t.vmem.mem (at_block a (==→eq (a / 8) b same))
        ∙ ap (λ o. seen t.vmem.mem o a)
            (sym f ∙ ap (λ x. find_page x t.active_pages) (sym (==→eq (a / 8) b same)))
    | inr other ↦
        ap (λ o. seen t.vmem.mem o a)
          (find_page-insert_page (a / 8) (tm_page_init b) t.active_pages
            ∙ if_false ((a / 8) == b) _ _ other)
  ];
}
  where
    at_block : (a : ℕ) → a / 8 ≡ b → b * 8 + a % 8 ≡ a
    at_block a h = omega arith

pub Steady-refl : (t : VmemTx) → IsConsistent t → Steady t t
Steady-refl t c = record { same_mem = refl; consistent = c; same_view = λ a. refl }
