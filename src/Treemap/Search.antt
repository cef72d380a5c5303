-- ===== src/Treemap/Search.antt =====
-- src/picotm-lib-treemap.c: a search in the map that the tree is.
use picotm.Prelude.{
  ℕ, ◌*◌, ◌^◌, ◌<◌, ◌≡◌, refl, ◌∙◌, sym, ap, ap₂, arith, Bool, true, false, true≢false, inl, inr,
  Option, some, ◌==◌, ==→eq, eq→==, if◌then◌else◌, if_true, if_false, Bool-cases,
}
use picotm.Module.{Run, failed}
use picotm.Treemap.{
  Entry, key_depth_prefix, Treemap, prefix_of, find_entry, lookup_value, find_grown,
  treemap_find_value,
}
use picotm.Treemap.Keys.{same_path-eq}
use picotm.Treemap.Lookup.{same_path, key_depth_prefix-prefix_of, lookup_value-find_entry}
use picotm.Treemap.Grow.{value_in, grow_tree_lem}

-- What a search says of the entries, said of the keys.
value_in_lem :
    (n d key other : ℕ) (e root : Entry) (v old : ℕ) (bad : Bool)
    → prefix_of key d n ≡ 0
    → value_in n root d other ≡ old
    → lookup_value n d e other ≡ (
        if bad
        then lookup_value n d root other
        else if same_path n d key other
        then v
        else lookup_value n d root other)
    → value_in n e d other
      ≡ (if bad then old else if key == other then (if bad then 0 else v) else old)
value_in_lem n d key other e root v old bad inside same found =
    elim (Bool-cases (prefix_of other d n == 0)) [
      | inl here ↦
          if_true (prefix_of other d n == 0) _ _ here
          ∙ found
          ∙ ap₂ (λ c l. if bad then l else if c then v else l)
              (same_path-eq n d key other inside (==→eq (prefix_of other d n) 0 here))
              (sym (if_true (prefix_of other d n == 0) _ _ here) ∙ same)
          ∙ tidy bad (key == other)
      | inr beyond ↦
          if_false (prefix_of other d n == 0) _ _ beyond
          ∙ missing bad (key == other) (apart beyond)
              (sym (if_false (prefix_of other d n == 0) _ _ beyond) ∙ same)
    ]
  where
    tidy :
        (b c : Bool)
        → (if b then old else if c then v else old)
          ≡ (if b then old else if c then (if b then 0 else v) else old)
    tidy true c = refl
    tidy false c = refl

    missing :
        (b c : Bool)
        → c ≡ false
        → 0 ≡ old
        → 0 ≡ (if b then old else if c then (if b then 0 else v) else old)
    missing true c h z = z
    missing false true h z = absurd (true≢false h)
    missing false false h z = z

    apart : (prefix_of other d n == 0) ≡ false → (key == other) ≡ false
    apart beyond = elim (Bool-cases (key == other)) [
      | inl equal ↦ absurd (
          true≢false (
            sym (eq→== (prefix_of key d n) 0 inside)
            ∙ ap (λ k. prefix_of k d n == 0) (==→eq key other equal)
            ∙ beyond))
      | inr unequal ↦ unequal
    ]

-- The value of a key in the map.
abbrev pub treemap_value : Treemap → ℕ → ℕ
treemap_value self key = value_in self.level_nbits self.root self.depth key

module _ {S : Type 0} (malloc : S → Bool × S) (errno : S → ℕ)
    (value_create : Option (ℕ → Run S → ℕ × Run S)) where
  -- The search for a key comes to an end, whether or not the tree has to grow for it. If it reports no
  -- error, the key has the value of its answer, and every other key has the value that it had; if it
  -- reports one, every key has the value that it had, and the answer is 0. The hypotheses: a level has at
  -- least one bit and, as the source asserts, fewer than 64; the key has 64 bits; the levels that the
  -- tree has before the search have fewer than 64 bits together, so that the first shift is defined; and
  -- there is no error before.
  pub treemap_value-treemap_find_value :
      (self : Treemap) (key : ℕ) (r : Run S)
      → 0 < self.level_nbits
      → self.level_nbits < 64
      → key < 2 ^ 64
      → self.depth * self.level_nbits < 64
      → failed r ≡ false
      → (self' : Treemap) × (v : ℕ) × (r' : Run S) × (treemap_find_value malloc errno value_create
            self key r
          ≡ some (self', v, r'))
        × ((other : ℕ)
            → treemap_value self' other ≡ (
                if failed r'
                then treemap_value self other
                else if key == other
                then v
                else treemap_value self other))
        × (v ≡ (if failed r' then 0 else v))
  unfolding treemap_find_value find_grown
  treemap_value-treemap_find_value self key r bits few word fits ok =
      let p = key_depth_prefix key self.depth self.level_nbits in
      let (root, depth, q, eq, same, inside, fits') =
        grow_tree_lem malloc errno self.level_nbits value_create key bits few word p self.root
          self.depth p r (omega arith)
          (sym (key_depth_prefix-prefix_of key self.depth self.level_nbits fits)) (omega arith) in
      elim (Bool-cases (failed q)) [
        | inl bad ↦ (
          record self { root = root; depth = depth },
          0,
          q,
          rw (eq, bad) refl,
          λ other. rw bad (same other),
          rw bad refl,
        )
        | inr good ↦
            let s = find_entry malloc errno self.level_nbits value_create depth root key q in
            (
              record self { root = s.0; depth = depth },
              if failed s.2 then 0 else s.1,
              s.2,
              rw (eq, good) refl,
              λ other.
                  value_in_lem self.level_nbits depth key other s.0 root s.1
                    (treemap_value self other) (failed s.2) (inside good) (same other)
                    (lookup_value-find_entry malloc errno self.level_nbits value_create depth root
                      key other q fits' good),
              twice (failed s.2) s.1,
            )
      ]
    where
      twice : (b : Bool) (x : ℕ) → (if b then 0 else x) ≡ (if b then 0 else if b then 0 else x)
      twice true x = refl
      twice false x = refl
