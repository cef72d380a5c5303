-- ===== src/Treemap/Depth.antt =====
-- src/picotm-lib-shared-treemap.c: the depth of a shared tree map, which is fixed when it is set up.
use native.Mathlib.Nat.{suc-mul, zero-mul}
use picotm.Prelude.{
  ℕ, zero, suc, ◌+◌, ◌-◌, ◌*◌, ◌≤◌, ◌<◌, ◌≡◌, refl, ◌∙◌, ap, arith, Option, none, some, inl, inr,
  ◌==◌, ==→eq, ltb, if◌then◌else◌, if_true, if_false, Bool-cases,
}

abbrev min : ℕ → ℕ → ℕ
min lhs rhs = if ltb lhs rhs then lhs else rhs

-- The loop from a depth on, with fuel.
unfoldable pub tree_depth_from : (fuel : ℕ) → ℕ → ℕ → ℕ → Option ℕ
tree_depth_from zero depth key_nbits level_nbits = if key_nbits == 0 then some depth else none
tree_depth_from (suc fuel) depth key_nbits level_nbits =
    let rest =
      tree_depth_from fuel (suc depth) (key_nbits - min key_nbits level_nbits) level_nbits in
    if key_nbits == 0 then some depth else rest

-- A level takes a bit at least.
unfoldable pub tree_depth : ℕ → ℕ → Option ℕ
unfolding tree_depth_from
tree_depth key_nbits level_nbits = tree_depth_from key_nbits 0 key_nbits level_nbits

depth_lem :
    (fuel depth bits n : ℕ)
    → 0 < n
    → bits ≤ fuel
    → (d : ℕ) × (tree_depth_from fuel depth bits n ≡ some d)
      × (depth * n + bits ≤ d * n)
      × (d * n < depth * n + bits + n)
      × (bits ≡ 0 → d ≡ depth)
unfolding tree_depth_from
depth_lem zero depth bits n pos le =
    (depth, if_true (bits == 0) _ _ (ground arith), omega arith, omega arith, λ e. refl)
depth_lem (suc fuel) depth bits n pos le = elim (Bool-cases (bits == 0)) [
  | inl done ↦ (
    depth,
    if_true (bits == 0) _ _ done,
    omega (arith, ==→eq bits 0 done),
    omega (arith, ==→eq bits 0 done),
    λ e. refl,
  )
  | inr more ↦
      let (d, eq, low, high, still) =
        depth_lem fuel (suc depth) (bits - min bits n) n pos (ground arith) in
      (
        d,
        if_false (bits == 0) _ _ more ∙ eq,
        ground (arith, suc-mul depth n),
        elim (Bool-cases (ltb bits n)) [
          | inl last ↦
              let same : d * n ≡ suc depth * n = ap (λ k. k * n) (still (ground arith)) in
              ground (arith, suc-mul depth n)
          | inr full ↦ ground (arith, suc-mul depth n)
        ],
        λ e. absurd (ground arith),
      )
]

-- The depth of a shared tree map whose levels have at least one bit is found, and is the least number of
-- levels that have all bits of a key.
pub tree_depth_lem :
    (key_nbits level_nbits : ℕ)
    → 0 < level_nbits
    → (depth : ℕ) × (tree_depth key_nbits level_nbits ≡ some depth)
      × (key_nbits ≤ depth * level_nbits)
      × (depth * level_nbits < key_nbits + level_nbits)
unfolding tree_depth
tree_depth_lem key_nbits level_nbits pos =
    let (d, eq, low, high, still) = depth_lem key_nbits 0 key_nbits level_nbits pos (omega arith) in
    (d, eq, omega (arith, zero-mul level_nbits), omega (arith, zero-mul level_nbits))
