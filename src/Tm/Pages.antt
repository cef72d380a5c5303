-- ===== src/Tm/Pages.antt =====
-- modules/tm/src/vmem_tx.c: the list of active pages as a map from blocks to pages.
use picotm.Prelude.{
  ℕ, suc, ◌≤◌, ◌<◌, ◌≡◌, refl, arith, false, Option, none, some, List, [], ◌∷◌, ◌==◌, if◌then◌else◌,
}
use picotm.Tm.{Page}
use picotm.Tm.Transaction.{find_page, insert_page, set_page}

pub find_page-insert_page :
    (b : ℕ) (q : Page) (ps : List Page)
    → find_page b (insert_page q ps) ≡ (if b == q.block then some q else find_page b ps)
unfolding find_page insert_page
find_page-insert_page b q [] = ground arith
find_page-insert_page b q (p ∷ ps) = ground (arith, find_page-insert_page b q ps)

abbrev pub if_some : Option Page → Page → Option Page
if_some none q = none
if_some (some p) q = some q

pub find_page-set_page :
    (b : ℕ) (q : Page) (ps : List Page)
    → find_page b (set_page q ps)
      ≡ (if b == q.block then if_some (find_page b ps) q else find_page b ps)
unfolding find_page set_page
find_page-set_page b q [] = ground arith
find_page-set_page b q (p ∷ ps) = ground (arith, find_page-set_page b q ps)

pub find_page-block : (b : ℕ) (ps : List Page) (p : Page) → find_page b ps ≡ some p → p.block ≡ b
unfolding find_page
find_page-block b [] p h = ground arith
find_page-block b (q ∷ ps) p h = ground (arith, find_page-block b ps p)

-- The blocks increase, from `lo` on.
abbrev pub IsSorted : ℕ → List Page → Type 0
IsSorted lo [] = Unit {0}
IsSorted lo (p ∷ ps) = (lo ≤ p.block) × IsSorted (suc p.block) ps

pub insert_page-IsSorted :
    (lo : ℕ) (q : Page) (ps : List Page)
    → IsSorted lo ps
    → lo ≤ q.block
    → find_page q.block ps ≡ none
    → IsSorted lo (insert_page q ps)
unfolding find_page insert_page
insert_page-IsSorted lo q [] s h f = (h, tt)
insert_page-IsSorted lo q (p ∷ ps) (l, s) h f =
    ground (arith, insert_page-IsSorted (suc p.block) q ps s)

pub set_page-IsSorted :
    (lo : ℕ) (q : Page) (ps : List Page) → IsSorted lo ps → IsSorted lo (set_page q ps)
unfolding set_page
set_page-IsSorted lo q [] s = tt
set_page-IsSorted lo q (p ∷ ps) (l, s) = ground (arith, set_page-IsSorted (suc p.block) q ps s)

pub find_page-below : (lo b : ℕ) (ps : List Page) → IsSorted lo ps → b < lo → find_page b ps ≡ none
unfolding find_page
find_page-below lo b [] s h = refl
find_page-below lo b (p ∷ ps) (l, s) h = ground arith

-- The first page, and the pages behind it, of a list that is sorted.
pub find_page_empty : (b : ℕ) → find_page b [] ≡ none
unfolding find_page
find_page_empty b = refl

pub find_page_head : (p : Page) (ps : List Page) → find_page p.block (p ∷ ps) ≡ some p
unfolding find_page
find_page_head p ps = ground arith

pub find_page_above :
    (lo b : ℕ) (ps : List Page) (q : Page) → IsSorted lo ps → find_page b ps ≡ some q → lo ≤ b
unfolding find_page
find_page_above lo b [] q s h = ground arith
find_page_above lo b (p ∷ ps) q (l, s) h = ground (arith, find_page_above (suc p.block) b ps q s)

pub find_page_tail :
    (b : ℕ) (p q : Page) (ps : List Page)
    → IsSorted (suc p.block) ps
    → find_page b ps ≡ some q
    → find_page b (p ∷ ps) ≡ some q
unfolding find_page
find_page_tail b p q ps s h = ground (arith, find_page_above (suc p.block) b ps q s h)

pub find_page-none :
    (b : ℕ) (p : Page) (ps : List Page)
    → find_page b ps ≡ none
    → (b == p.block) ≡ false
    → find_page b (p ∷ ps) ≡ none
unfolding find_page
find_page-none b p ps h e = ground arith
