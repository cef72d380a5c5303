-- ===== src/Treemap/Grow.antt =====
-- src/picotm-lib-treemap.c: the growth of the tree.
use native.Mathlib.Nat.{
  div-lt_self, mod-add-div, zero-div, zero-mod, mul-zero, pow-le-pow_right, suc-mul, mod-eq_of_lt,
  div-eq_of_lt,
}
use picotm.Prelude.{
  ℕ, zero, suc, ◌+◌, ◌*◌, ◌/◌, ◌%◌, ◌^◌, ◌≤◌, ◌<◌, ◌≡◌, refl, ◌∙◌, sym, ap, arith, Bool, false,
  true≢false, inl, inr, Option, some, ◌==◌, ==→eq, eq→==, ltb, if◌then◌else◌, if_true, if_false,
  Bool-cases,
}
use picotm.Prelude.Count.{update}
use picotm.Module.{Run, failed}
use picotm.Treemap.{
  Entry, shift_right, null, dir, prefix_of, index_of, empty_dir, dir_create, grow_tree,
  lookup_value,
}
use picotm.Treemap.Keys.{prefix_step}
use picotm.Treemap.Lookup.{lookup-null}

-- The value of a key in a tree; a key beyond the levels of the tree has none.
abbrev pub value_in : ℕ → Entry → ℕ → ℕ → ℕ
value_in level_nbits root depth key =
    if prefix_of key depth level_nbits == 0 then lookup_value level_nbits depth root key else 0

-- A new root directory with the old root in its first entry.
abbrev above : Entry → Entry
above root = dir (update empty_dir 0 root)

nonzero : (a p m : ℕ) → a + m ≡ p → m ≡ 0 → (p == 0) ≡ false → (0 == a) ≡ false
nonzero a p m e z h = ground arith

value_in-above :
    (n : ℕ) (root : Entry) (d key : ℕ) → value_in n (above root) (suc d) key ≡ value_in n root d key
unfolding lookup_value
value_in-above n root d key = elim (Bool-cases (prefix_of key d n == 0)) [
  | inl inside ↦
      if_true (prefix_of key (suc d) n == 0) _ _ (
        eq→== (prefix_of key (suc d) n) 0 (
          prefix_step key d n
          ∙ ap (λ x. x / 2 ^ n) (==→eq (prefix_of key d n) 0 inside)
          ∙ zero-div (2 ^ n)))
      ∙ ap (λ e. lookup_value n d e key)
          (if_true (0 == index_of key d n) root null (
            eq→== 0 (index_of key d n)
              (sym (ap (λ x. x % 2 ^ n) (==→eq (prefix_of key d n) 0 inside) ∙ zero-mod (2 ^ n)))))
      ∙ sym (if_true (prefix_of key d n == 0) _ _ inside)
  | inr beyond ↦ elim (Bool-cases (prefix_of key (suc d) n == 0)) [
    | inl last ↦
        if_true (prefix_of key (suc d) n == 0) _ _ last
        ∙ ap (λ e. lookup_value n d e key)
            (if_false (0 == index_of key d n) root null (
              nonzero (index_of key d n) (prefix_of key d n) (2 ^ n * 0)
                (ap (λ q. index_of key d n + 2 ^ n * q)
                    (sym (==→eq (prefix_of key (suc d) n) 0 last) ∙ prefix_step key d n)
                  ∙ mod-add-div (prefix_of key d n) (2 ^ n))
                (mul-zero (2 ^ n)) beyond))
        ∙ lookup-null n d key
        ∙ sym (if_false (prefix_of key d n == 0) _ _ beyond)
    | inr far ↦
        if_false (prefix_of key (suc d) n == 0) _ _ far
        ∙ sym (if_false (prefix_of key d n == 0) _ _ beyond)
  ]
]

module _ {S : Type 0} (malloc : S → Bool × S) (errno : S → ℕ) (n : ℕ)
    (value_create : Option (ℕ → Run S → ℕ × Run S)) (key : ℕ) (bits : 0 < n) (few : n < 64)
    (word : key < 2 ^ 64) where
  -- What is expected of the growth of a tree for the key.
  abbrev Grows : Entry → ℕ → Option (Entry × ℕ × Run S) → Type 0
  Grows root depth o =
      (root' : Entry) × (depth' : ℕ) × (r' : Run S) × (o ≡ some (root', depth', r'))
      × ((other : ℕ) → value_in n root' depth' other ≡ value_in n root depth other)
      × (failed r' ≡ false → prefix_of key depth' n ≡ 0)
      × (depth' * n < 64 + n)

  -- A prefix that is left leaves room for one more level.
  room : (depth p : ℕ) → prefix_of key depth n ≡ p → (p == 0) ≡ false → suc depth * n < 64 + n
  room depth p e more = elim (Bool-cases (ltb (depth * n) 64)) [
    | inl small ↦ ground (arith, suc-mul depth n)
    | inr large ↦
        let wide : 2 ^ 64 ≤ 2 ^ (depth * n) =
          pow-le-pow_right {n = 2} (omega arith) {i = 64} {j = depth * n} (ground arith) in
        let gone : prefix_of key depth n ≡ 0 = div-eq_of_lt (omega (arith, word, wide)) in
        absurd (true≢false (sym (eq→== p 0 (sym e ∙ gone)) ∙ more))
  ]

  shorter : (p fuel : ℕ) → p ≤ suc fuel → (p == 0) ≡ false → p / 2 ^ n ≤ fuel
  shorter p fuel le more = omega (arith, shrinks)
    where
      two : 2 ^ 1 ≤ 2 ^ n
      two = pow-le-pow_right {n = 2} (omega arith) bits

      shrinks : p / 2 ^ n < p
      shrinks = div-lt_self (ground arith) two

  shift_right-div : (p : ℕ) → shift_right p n ≡ p / 2 ^ n
  shift_right-div p = ap (λ k. p / 2 ^ k) (mod-eq_of_lt few)

  pub grow_tree_lem :
      (fuel : ℕ) (root : Entry) (depth p : ℕ) (r : Run S)
      → p ≤ fuel
      → prefix_of key depth n ≡ p
      → depth * n < 64 + n
      → Grows root depth (grow_tree malloc errno n value_create fuel root depth p r)
  unfolding grow_tree
  grow_tree_lem zero root depth p r le e fits = (
    root,
    depth,
    r,
    if_true (p == 0) _ _ (ground arith),
    λ other. refl,
    λ ok. e ∙ omega arith,
    fits,
  )
  grow_tree_lem (suc fuel) root depth p r le e fits = elim (Bool-cases (p == 0)) [
    | inl done ↦
        (root, depth, r, if_true (p == 0) _ _ done, λ other. refl, λ ok. e ∙ ==→eq p 0 done, fits)
    | inr more ↦ elim (Bool-cases (failed (dir_create malloc errno n value_create r).1)) [
      | inl bad ↦ (
        root,
        depth,
        (dir_create malloc errno n value_create r).1,
        rw (more, bad) refl,
        λ other. refl,
        λ ok. absurd (true≢false (sym bad ∙ ok)),
        fits,
      )
      | inr good ↦
          let (root', depth', r', eq, same, inside, fits') =
            grow_tree_lem fuel (above root) (suc depth) (shift_right p n)
              (dir_create malloc errno n value_create r).1
              (rw (shift_right-div p) (shorter p fuel le more))
              (prefix_step key depth n ∙ ap (λ x. x / 2 ^ n) e ∙ sym (shift_right-div p))
              (room depth p e more) in
          (
            root',
            depth',
            r',
            rw (more, good) eq,
            λ other. same other ∙ value_in-above n root depth other,
            inside,
            fits',
          )
    ]
  ]
