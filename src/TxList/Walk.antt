-- ===== src/TxList/Walk.antt =====
-- modules/txlib/src/txlist_state.c: the functions that walk a list.
use picotm.Prelude.{
  ℕ, zero, suc, ◌+◌, ◌<◌, ◌≡◌, refl, arith, true, false, some, List, [], ◌∷◌, length, ◌==◌, ◌∙◌, ap,
  sym, subst, if_true, if_false, eq→==, ne→==, inl, true≢false,
}
use picotm.TxList.{
  Store, entry_distance, distance_from, list_size, list_clear_and_uninit, list_is_empty,
  entry_erase,
}
use picotm.TxList.Shape.{
  Seg, IsList, contains, or_false, last_from, first_of, without, without-IsDistinct,
  contains-without, or_true,
}
use picotm.TxList.Links.{Seg-Prec, Seg-Succ}
use picotm.TxList.Erase.{without-Seg}

distance_from-Seg :
    (fuel n a b : ℕ) (xs : List ℕ) (s : Store)
    → Seg s a xs b
    → contains b xs ≡ false
    → length xs < fuel
    → distance_from fuel n (s.next a) b s ≡ some (length xs + n)
unfolding distance_from
distance_from-Seg zero n a b xs s g bx h = absurd (omega arith)
distance_from-Seg (suc fuel) n a b [] s (p, q) bx h = ground arith
distance_from-Seg (suc fuel) n a b (x ∷ xs) s (p, q, g) bx h =
    let (apart, others) = or_false (b == x) (contains b xs) bx in
    let ih = distance_from-Seg fuel (n + 1) x b xs s g others (omega arith) in
    rw p (if_false (x == b) (some n) _ (ground arith) ∙ ih ∙ ap some (omega arith))

-- With fuel for its entries, the size of a list is their number.
pub list_size_lem :
    (fuel head : ℕ) (s : Store) (xs : List ℕ)
    → IsList s head xs
    → length xs < fuel
    → list_size fuel head s ≡ some (length xs)
unfolding list_size entry_distance
list_size_lem fuel head s xs w h =
    distance_from-Seg fuel 0 head head xs s w.seg w.out h ∙ ap some (omega arith)

pub list_back-Seg : (s : Store) (a b : ℕ) (xs : List ℕ) → Seg s a xs b → s.prev b ≡ last_from a xs
list_back-Seg s a b [] g = g.1
list_back-Seg s a b (x ∷ xs) (n, p, g) = list_back-Seg s x b xs g

pub list_begin-Seg : (s : Store) (a b : ℕ) (xs : List ℕ) → Seg s a xs b → s.next a ≡ first_of xs b
list_begin-Seg s a b [] g = g.0
list_begin-Seg s a b (x ∷ xs) g = g.0

pub list_is_empty_lem :
    (head : ℕ) (s : Store) (xs : List ℕ)
    → IsList s head xs
    → list_is_empty head s ≡ (length xs == 0)
unfolding list_is_empty
list_is_empty_lem head s [] w = eq→== (s.next head) head w.seg.0
list_is_empty_lem head s (x ∷ xs) w =
    let (apart, others) = or_false (head == x) (contains head xs) w.out in
    ap (λ t. t == head) w.seg.0 ∙ ne→== x head (ground arith) ∙ ground arith

-- The entry that is erased is in the list, which goes on without it.
pub erase-IsList :
    (e head : ℕ) (s : Store) (xs : List ℕ)
    → IsList s head xs
    → contains e xs ≡ true
    → IsList (entry_erase e s) head (without e xs)
erase-IsList e head s xs w h =
    let apart = λ (q : head ≡ e). true≢false (sym h ∙ subst (λ t. contains t xs ≡ false) q w.out) in
    record {
      seg =
          without-Seg e s (Seg-Prec s head head e xs w.seg (inl h))
            (Seg-Succ s head head e xs w.seg (inl h)) head head xs w.seg apart apart h w.distinct;
      distinct = without-IsDistinct e xs w.distinct;
      out = contains-without head e xs w.out;
    }

-- With fuel for its entries, to clear a list calls `uninit` for each of them in their order, and leaves the
-- empty list.
pub list_clear_and_uninit_lem :
    (fuel head : ℕ) (s : Store) (xs : List ℕ)
    → IsList s head xs
    → length xs < fuel
    → (cleared : Store) × (list_clear_and_uninit fuel head s ≡ some (cleared, xs))
      × IsList cleared head []
unfolding list_clear_and_uninit
list_clear_and_uninit_lem zero head s xs w h = absurd (omega arith)
list_clear_and_uninit_lem (suc fuel) head s [] w h =
    (s, if_true (s.next head == head) _ _ (eq→== (s.next head) head w.seg.0), w)
list_clear_and_uninit_lem (suc fuel) head s (x ∷ xs) w h =
    let (apart, others) = or_false (head == x) (contains head xs) w.out in
    let first = or_true (x == x) (contains x xs) (eq→== x x refl) in
    let rest : IsList (entry_erase x s) head xs =
      subst (IsList (entry_erase x s) head) (if_true (x == x) xs _ (eq→== x x refl))
        (erase-IsList x head s (x ∷ xs) w first) in
    let (cleared, e, v) =
      list_clear_and_uninit_lem fuel head (entry_erase x s) xs rest (omega arith) in
    (cleared, rw (w.seg.0, ne→== x head (ground arith), e) refl, v)
