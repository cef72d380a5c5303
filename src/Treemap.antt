-- ===== src/Treemap.antt =====
-- src/picotm-lib-treemap.c: a map from keys to values as a tree of directories.
--
-- An entry of a directory is null, a value, or a directory, as its level says. A directory is a function from
-- its indexes to entries; `update` is a write to an entry through its address. Values are numbers, and 0 is no
-- value. The arguments `malloc` and `errno` are the allocation of a directory, `value_create` is the
-- call-back, or none.
pub mod Lookup
pub mod Keys
pub mod Grow
pub mod Search
pub mod Depth
use picotm.Prelude.{
  ℕ, zero, suc, ◌+◌, ◌*◌, ◌/◌, ◌%◌, ◌^◌, Bool, true, false, Option, none, some, ◌==◌, if◌then◌else◌,
  ◌>>=◌,
}
use picotm.Prelude.Count.{update}
use picotm.Error.{set_errno}
use picotm.Module.{Run, failed}

pub data Entry : Type 0 where
  null : Entry
  value : ℕ → Entry
  dir : (ℕ → Entry) → Entry

pub record Treemap : Type 0 where
  pub root : Entry
  pub depth : ℕ
  pub level_nbits : ℕ

abbrev pub treemap_init : ℕ → Treemap
treemap_init level_nbits = record { root = null; depth = 0; level_nbits = level_nbits }

-- key >> n, of 64 bits. C defines it for a shift by less than 64 bits. Beyond that this is what the processors
-- do that read six bits of n, and the theorems have the hypothesis that no shift is as wide.
abbrev pub shift_right : ℕ → ℕ → ℕ
shift_right key n = key / 2 ^ (n % 64)

abbrev pub key_depth_prefix : ℕ → ℕ → ℕ → ℕ
key_depth_prefix key depth level_nbits = shift_right key (depth * level_nbits)

abbrev pub level_nentries : ℕ → ℕ
level_nentries level_nbits = 2 ^ level_nbits

abbrev pub entry_index : ℕ → ℕ → ℕ → ℕ
entry_index key depth level_nbits =
    key_depth_prefix key depth level_nbits % level_nentries level_nbits

-- dir_init()
abbrev pub empty_dir : ℕ → Entry
empty_dir i = null

-- What is written for a value: 0 is the null pointer.
abbrev pub entry_of : ℕ → Entry
entry_of v = if v == 0 then null else value v

module _ {S : Type 0} (malloc : S → Bool × S) (errno : S → ℕ) (level_nbits : ℕ)
    (value_create : Option (ℕ → Run S → ℕ × Run S)) where
  -- The directory, or null, and the state.
  unfoldable pub dir_create : Run S → Option (ℕ → Entry) × Run S
  dir_create r =
      let (done, s) = malloc r.world in
      if done
      then (some empty_dir, record r { world = s })
      else (none, record { world = s; error = set_errno r.error (errno s) })

  -- The loop of grow_tree(). The prefix gets shorter as long as a level has a bit.
  unfoldable pub grow_tree : (fuel : ℕ) → Entry → ℕ → ℕ → Run S → Option (Entry × ℕ × Run S)
  unfolding dir_create
  grow_tree zero root depth key_prefix r = if key_prefix == 0 then some (root, depth, r) else none
  grow_tree (suc fuel) root depth key_prefix r =
      let (created, r') = dir_create r in
      let rest =
        grow_tree fuel (dir (update empty_dir 0 root)) (suc depth)
          (shift_right key_prefix level_nbits) r' in
      if key_prefix == 0
      then some (root, depth, r)
      else if failed r'
      then some (root, depth, r')
      else rest

  -- Whether the caller may create is whether it can create values.
  unfoldable pub create_dir : Option (ℕ → Run S → ℕ × Run S) → Run S → Option (ℕ → Entry) × Run S
  create_dir none r = (none, r)
  create_dir (some f) r = dir_create r

  unfoldable pub retrieve_dir : Entry → Run S → Option (ℕ → Entry) × Run S
  retrieve_dir (dir f) r = (some f, r)
  retrieve_dir (value v) r = (none, r)
  retrieve_dir null r = create_dir value_create r

  unfoldable pub create_value : Option (ℕ → Run S → ℕ × Run S) → ℕ → Run S → Entry × ℕ × Run S
  create_value none key r = (null, 0, r)
  create_value (some f) key r =
      let (v, r') = f key r in if failed r' then (null, 0, r') else (entry_of v, v, r')

  -- What the slot holds after the call, the value, and the state.
  unfoldable pub retrieve_value : Entry → ℕ → Run S → Entry × ℕ × Run S
  retrieve_value (value v) key r = (value v, v, r)
  retrieve_value (dir f) key r = (dir f, 0, r)
  retrieve_value null key r = create_value value_create key r

  unfoldable pub in_dir :
      Entry
      → ℕ
      → Option (ℕ → Entry) × Run S
      → (Entry → Run S → Entry × ℕ × Run S)
      → Entry × ℕ × Run S
  in_dir e i (none, r) next = (e, 0, r)
  in_dir e i (some f, r) next =
      let (e', v, r') = next (f i) r in if failed r then (e, 0, r) else (dir (update f i e'), v, r')

  -- lookup_value_entry() from an entry that has some levels below it, and retrieve_value() at its end.
  unfoldable pub find_entry : (depth : ℕ) → Entry → ℕ → Run S → Entry × ℕ × Run S
  unfolding in_dir
  find_entry zero e key r = retrieve_value e key r
  find_entry (suc depth) e key r =
      in_dir e (entry_index key depth level_nbits) (retrieve_dir e r)
        (λ e' r'. find_entry depth e' key r')

-- The bits of a key above the levels, and those that are its index on a level, of numbers without a bound.
abbrev pub prefix_of : ℕ → ℕ → ℕ → ℕ
prefix_of key depth level_nbits = key / 2 ^ (depth * level_nbits)

abbrev pub index_of : ℕ → ℕ → ℕ → ℕ
index_of key depth level_nbits = prefix_of key depth level_nbits % 2 ^ level_nbits

-- The value of a key below an entry.
unfoldable pub lookup_value : ℕ → (depth : ℕ) → Entry → ℕ → ℕ
lookup_value level_nbits zero (value v) key = v
lookup_value level_nbits zero (dir f) key = 0
lookup_value level_nbits zero null key = 0
lookup_value level_nbits (suc depth) (value v) key = 0
lookup_value level_nbits (suc depth) null key = 0
lookup_value level_nbits (suc depth) (dir f) key =
    lookup_value level_nbits depth (f (index_of key depth level_nbits)) key

module _ {S : Type 0} (malloc : S → Bool × S) (errno : S → ℕ)
    (value_create : Option (ℕ → Run S → ℕ × Run S)) where
  unfoldable pub find_grown : Treemap → ℕ → Entry × ℕ × Run S → Treemap × ℕ × Run S
  find_grown self key (root, depth, r) =
      let (e, v, r') = find_entry malloc errno self.level_nbits value_create depth root key r in
      if failed r
      then (record self { root = root; depth = depth }, 0, r)
      else (record self { root = e; depth = depth }, if failed r' then 0 else v, r')

  -- The fuel is the prefix of the key, which every shift by a bit or more makes smaller.
  unfoldable pub treemap_find_value : Treemap → ℕ → Run S → Option (Treemap × ℕ × Run S)
  unfolding find_grown
  treemap_find_value self key r =
      let key_prefix = key_depth_prefix key self.depth self.level_nbits in
      grow_tree malloc errno self.level_nbits value_create key_prefix self.root self.depth
        key_prefix r
      >>= λ grown. some (find_grown self key grown)
