-- ===== src/Tests/Maps.antt =====
-- Searches in a tree map with four entries for each directory.
use picotm.Prelude.{
  ℕ, ◌+◌, ◌*◌, ◌≤◌, ◌<◌, ◌≡◌, false, refl, arith, Bool, true, Option, none, some, ◌==◌,
  if◌then◌else◌,
}
use picotm.Error.{is_set}
use picotm.Module.{Run, failed}
use picotm.Treemap.{
  Treemap, treemap_init, treemap_find_value, find_grown, find_entry, in_dir, retrieve_dir,
  retrieve_value, create_dir, create_value, dir_create, grow_tree,
}
use picotm.Treemap.Depth.{tree_depth, tree_depth_lem}
use picotm.Treemap.Search.{treemap_value, treemap_value-treemap_find_value}
use picotm.Tests.Data.{no_error}

clean : failed (no_error 0) ≡ false
unfolding failed is_set
clean = refl

abbrev plenty : ℕ → Bool × ℕ
plenty s = (true, s + 1)

abbrev no_errno : ℕ → ℕ
no_errno s = 12

abbrev add_100 : Option (ℕ → Run ℕ → ℕ × Run ℕ)
add_100 = some (λ key r. (key + 100, r))

treemap_value-treemap_find_value_example :
    (self' : Treemap) × (v : ℕ) × (r' : Run ℕ) × (treemap_find_value plenty no_errno add_100
        (treemap_init 2)
        9
        (no_error 0)
      ≡ some (self', v, r'))
    × ((other : ℕ)
        → treemap_value self' other ≡ (
            if failed r'
            then treemap_value (treemap_init 2) other
            else if 9 == other
            then v
            else treemap_value (treemap_init 2) other))
    × (v ≡ (if failed r' then 0 else v))
treemap_value-treemap_find_value_example =
    treemap_value-treemap_find_value plenty no_errno add_100 (treemap_init 2) 9 (no_error 0)
      (omega arith) (omega arith) (omega arith) (omega arith) clean

-- The value of the key 9, and how many directories have been made: two for its levels, and one below.
abbrev observed : Option (Treemap × ℕ × Run ℕ) → Option (ℕ × ℕ × ℕ)
observed none = none
observed (some (t, v, r)) = some (t.depth, v, r.world)

found_value :
    observed (treemap_find_value plenty no_errno add_100 (treemap_init 2) 9 (no_error 0))
    ≡ some (2, 109, 3)
unfolding treemap_find_value find_grown find_entry in_dir retrieve_dir retrieve_value create_dir
    create_value dir_create grow_tree failed is_set
found_value = refl

-- The 61 bits of a block's number, in levels of 10 bits.
tree_depth_lem_example :
    (depth : ℕ) × (tree_depth 61 10 ≡ some depth) × (61 ≤ depth * 10) × (depth * 10 < 61 + 10)
tree_depth_lem_example = tree_depth_lem 61 10 (omega arith)
