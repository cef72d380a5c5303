-- ===== src/Treemap/Keys.antt =====
-- src/picotm-lib-treemap.c: the keys of a tree, and the indexes that lead to their entries.
use native.Mathlib.Nat.{
  div-div-eq-div-mul, mod-add-div, div-one, mul-one, mul_assoc, zero-mul, suc-mul, pow-suc,
}
use picotm.Prelude.{
  ℕ, zero, suc, ◌+◌, ◌*◌, ◌/◌, ◌^◌, ◌≡◌, refl, ◌∙◌, sym, ap, ap₂, arith, true, true≢false, inl, inr,
  ◌==◌, ==→eq, eq→==, Bool-cases,
}
use picotm.Treemap.{prefix_of, index_of}
use picotm.Treemap.Lookup.{same_path}

pow_add : (a n : ℕ) → 2 ^ a * 2 ^ n ≡ 2 ^ (a + n)
pow_add a zero = mul-one (2 ^ a) ∙ ap (λ k. 2 ^ k) (omega arith)
pow_add a (suc n) =
    ap (λ x. 2 ^ a * x) (pow-suc 2 n)
    ∙ sym (mul_assoc (2 ^ a) (2 ^ n) 2)
    ∙ ap (λ x. x * 2) (pow_add a n)
    ∙ sym (pow-suc 2 (a + n))
    ∙ ap (λ k. 2 ^ k) (omega arith)

pub prefix_step : (key d n : ℕ) → prefix_of key (suc d) n ≡ prefix_of key d n / 2 ^ n
prefix_step key d n =
    ap (λ m. key / 2 ^ m) (suc-mul d n)
    ∙ ap (λ m. key / m) (sym (pow_add (d * n) n))
    ∙ sym (div-div-eq-div-mul key (2 ^ (d * n)) (2 ^ n))

-- Two keys of the tree that lead to the same entry are the same.
same_key :
    (n d key other : ℕ)
    → prefix_of key d n ≡ prefix_of other d n
    → same_path n d key other ≡ true
    → key ≡ other
unfolding same_path
same_key n zero key other e h = sym (whole key) ∙ e ∙ whole other
  where
    whole : (k : ℕ) → k / 2 ^ (0 * n) ≡ k
    whole k = ap (λ m. k / 2 ^ m) (zero-mul n) ∙ div-one k
same_key n (suc d) key other e h =
    same_key n d key other
      (sym (mod-add-div (prefix_of key d n) (2 ^ n))
        ∙ ap₂ (λ a b. a + 2 ^ n * b) (==→eq (index_of key d n) (index_of other d n) (ground arith))
            (sym (prefix_step key d n) ∙ e ∙ prefix_step other d n)
        ∙ mod-add-div (prefix_of other d n) (2 ^ n))
      (ground arith)

same_path_self : (n d key : ℕ) → same_path n d key key ≡ true
unfolding same_path
same_path_self n zero key = refl
same_path_self n (suc d) key = ground (arith, same_path_self n d key)

-- Of the keys of the tree, one alone leads to each entry.
pub same_path-eq :
    (n d key other : ℕ)
    → prefix_of key d n ≡ 0
    → prefix_of other d n ≡ 0
    → same_path n d key other ≡ (key == other)
same_path-eq n d key other k o = elim (Bool-cases (same_path n d key other)) [
  | inl one ↦ one ∙ sym (eq→== key other (same_key n d key other (k ∙ sym o) one))
  | inr two ↦ elim (Bool-cases (key == other)) [
    | inl same ↦ absurd (
        true≢false
          (sym (same_path_self n d key) ∙ ap (same_path n d key) (==→eq key other same) ∙ two))
    | inr apart ↦ two ∙ sym apart
  ]
]
