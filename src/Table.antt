-- ===== src/Table.antt =====
-- src/table.c: the growable arrays and their loops.
--
-- An array is the list of its elements; `base + k * siz` is the list without its first `k` elements.
-- A loop takes fuel, `none` when it runs out: a call-back that answers 0 elements without an error
-- repeats for ever, in C too.
pub mod Walk
use Prim.Native.Nat.{bit_or}
use picotm.Prelude.{
  ℕ, zero, suc, ◌+◌, ◌-◌, ◌*◌, ◌/◌, ◌%◌, ◌^◌, Bool, true, false, not, ◌&&◌, Option, none, some,
  List, [], ◌∷◌, drop, ltb, ◌==◌, if◌then◌else◌,
}
use picotm.Error.{Error, set_errno}
use picotm.Module.{Run, failed}

-- size_t has 64 bits.
abbrev pub size_mod : ℕ
size_mod = 2 ^ 64

-- One round of the loop in rndpow2().
smear : ℕ → ℕ → ℕ
smear val i = bit_or val (val / 2 ^ i)

-- The loop runs for i = 1, 2, 4, 8, 16 and 32.
unfoldable pub rndpow2 : ℕ → ℕ
unfolding smear
rndpow2 val =
    let v0 = (val + size_mod - 1) % size_mod in
    let v = smear (smear (smear (smear (smear (smear v0 1) 2) 4) 8) 16) 32 in (v + 1) % size_mod

-- errno's value for a lack of memory.
abbrev pub enomem : ℕ
enomem = 12

-- A pointer is a number, `none` is null.
pub record Resized : Type 0 where
  pub s_lowmem : Bool
  pub mem : Option ℕ
  pub error : Error

abbrev pub is_null : Option ℕ → Bool
is_null none = true
is_null (some _) = false

-- realloc() answers a pointer, and sets errno if it is null.
module _ (realloc : Option ℕ → ℕ → Option ℕ × ℕ) where
  -- The allocation after the label do_alloc. The second part is errno.
  do_alloc : Bool → Option ℕ → ℕ → ℕ → ℕ → ℕ → Option ℕ × ℕ
  do_alloc true base nelems newnelems siz errno = realloc base (newnelems * siz % size_mod)
  do_alloc false base nelems newnelems siz errno =
      if rndpow2 nelems == rndpow2 newnelems
      then (base, errno)
      else realloc base (rndpow2 newnelems * siz % size_mod)

  set_result : Bool → ℕ → Error → Option ℕ × ℕ → Resized
  set_result s_lowmem newnelems e (mem, errno) = record {
    s_lowmem = s_lowmem;
    mem = mem;
    error = if is_null mem && ltb 0 newnelems then set_errno e errno else e;
  }

  -- The static variable `s_lowmem` and errno come in as arguments. The jump back to do_alloc is made
  -- once at most, since it sets `s_lowmem`.
  unfoldable pub tabresize : Bool → ℕ → Option ℕ → ℕ → ℕ → ℕ → Error → Resized
  unfolding do_alloc set_result
  tabresize s_lowmem errno base nelems newnelems siz e =
      let first = do_alloc s_lowmem base nelems newnelems siz errno in
      if is_null first.0 && ltb 0 newnelems && (first.1 == enomem && not s_lowmem)
      then set_result true newnelems e (do_alloc true base nelems newnelems siz first.1)
      else set_result s_lowmem newnelems e first

module _ {S A : Type 0} where
  walk_from : ℕ → List A → (A → Run S → ℕ × Run S) → ℕ → Run S → Option (ℕ × Run S)
  walk_from zero base walk pos r = none
  walk_from (suc fuel) [] walk pos r = some (pos, r)
  walk_from (suc fuel) (x ∷ xs) walk pos r =
      let (inc, r') = walk x r in
      let rest = walk_from fuel (drop inc (x ∷ xs)) walk (pos + inc) r' in
      if failed r' then some (pos, r') else rest

  -- The answer is the number of elements passed, and the final state.
  unfoldable pub tabwalk_1 : ℕ → List A → (A → Run S → ℕ × Run S) → Run S → Option (ℕ × Run S)
  unfolding walk_from
  tabwalk_1 fuel base walk r = walk_from fuel base walk 0 r

module _ {S A D : Type 0} where
  walk_data_from : ℕ → List A → (A → D → Run S → ℕ × Run S) → D → ℕ → Run S → Option (ℕ × Run S)
  walk_data_from zero base walk arg pos r = none
  walk_data_from (suc fuel) [] walk arg pos r = some (pos, r)
  walk_data_from (suc fuel) (x ∷ xs) walk arg pos r =
      let (inc, r') = walk x arg r in
      let rest = walk_data_from fuel (drop inc (x ∷ xs)) walk arg (pos + inc) r' in
      if failed r' then some (pos, r') else rest

  unfoldable pub tabwalk_2 :
      ℕ → List A → (A → D → Run S → ℕ × Run S) → D → Run S → Option (ℕ × Run S)
  unfolding walk_data_from
  tabwalk_2 fuel base walk arg r = walk_data_from fuel base walk arg 0 r
