-- ===== src/Treemap/Lookup.antt =====
-- src/picotm-lib-treemap.c: the tree as a function from keys to values.
use native.Mathlib.Nat.{suc-mul, mod-eq_of_lt}
use picotm.Prelude.{
  ℕ, zero, suc, ◌+◌, ◌*◌, ◌/◌, ◌%◌, ◌^◌, ◌<◌, arith, ◌≡◌, refl, ◌∙◌, subst, sym, ap, Bool, true,
  false, ◌&&◌, inl, inr, Option, none, some, ◌==◌, ==→eq, if◌then◌else◌, if_true, if_false,
  Bool-cases,
}
use picotm.Prelude.Count.{update}
use picotm.Error.{set_errno}
use picotm.Module.{Run, failed}
use picotm.Treemap.{
  Entry, null, value, dir, index_of, prefix_of, entry_index, key_depth_prefix, empty_dir, entry_of,
  dir_create, retrieve_dir, create_value, create_dir, retrieve_value, in_dir, find_entry,
  lookup_value,
}

pub key_depth_prefix-prefix_of :
    (key depth n : ℕ) → depth * n < 64 → key_depth_prefix key depth n ≡ prefix_of key depth n
key_depth_prefix-prefix_of key depth n h = ap (λ m. key / 2 ^ m) (mod-eq_of_lt h)

pub entry_index-index_of :
    (key depth n : ℕ) → depth * n < 64 → entry_index key depth n ≡ index_of key depth n
entry_index-index_of key depth n h = ap (λ p. p % 2 ^ n) (key_depth_prefix-prefix_of key depth n h)

-- Whether two keys lead to the same entry, some levels below.
unfoldable pub same_path : ℕ → (depth : ℕ) → ℕ → ℕ → Bool
same_path level_nbits zero key other = true
same_path level_nbits (suc depth) key other =
    (index_of key depth level_nbits == index_of other depth level_nbits)
    && same_path level_nbits depth key other

pub lookup-null : (level_nbits depth key : ℕ) → lookup_value level_nbits depth null key ≡ 0
unfolding lookup_value
lookup-null level_nbits zero key = refl
lookup-null level_nbits (suc depth) key = refl

module _ {S : Type 0} (malloc : S → Bool × S) (errno : S → ℕ) (level_nbits : ℕ)
    (value_create : Option (ℕ → Run S → ℕ × Run S)) where
  -- The keys' values after a search, compared with those before it.
  abbrev Answers : (depth : ℕ) → Entry → ℕ → Entry × ℕ × Run S → ℕ → Type 0
  Answers depth e key (e', v, r') other = lookup_value level_nbits depth e' other ≡ (
      if failed r'
      then lookup_value level_nbits depth e other
      else if same_path level_nbits depth key other
      then v
      else lookup_value level_nbits depth e other)

  lookup-entry_of : (v key : ℕ) → lookup_value level_nbits zero (entry_of v) key ≡ v
  unfolding lookup_value
  lookup-entry_of v key = elim (Bool-cases (v == 0)) [
    | inl nothing ↦
        ap (λ e. lookup_value level_nbits zero e key) (if_true (v == 0) _ _ nothing)
        ∙ sym (==→eq v 0 nothing)
    | inr something ↦
        ap (λ e. lookup_value level_nbits zero e key) (if_false (v == 0) _ _ something)
  ]

  created_lem :
      (create : Option (ℕ → Run S → ℕ × Run S)) (key other : ℕ) (r : Run S)
      → failed r ≡ false
      → Answers zero null key
          (create_value malloc errno level_nbits value_create create key r)
          other
  unfolding create_value lookup_value same_path
  created_lem none key other r ok = rw ok refl
  created_lem (some f) key other r ok = elim (Bool-cases (failed (f key r).1)) [
    | inl bad ↦ rw (bad, bad) refl
    | inr good ↦ rw (good, good) (lookup-entry_of (f key r).0 other)
  ]

  value_lem :
      (e : Entry) (key other : ℕ) (r : Run S)
      → failed r ≡ false
      → Answers zero e key (retrieve_value malloc errno level_nbits value_create e key r) other
  unfolding retrieve_value lookup_value same_path
  value_lem (value v) key other r ok = rw ok refl
  value_lem (dir f) key other r ok = rw ok refl
  value_lem null key other r ok = created_lem value_create key other r ok

  dir_lem :
      (depth : ℕ) (f : ℕ → Entry) (key other : ℕ) (s : Entry × ℕ × Run S)
      → Answers depth (f (index_of key depth level_nbits)) key s other
      → Answers
          (suc depth)
          (dir f)
          key
          (dir (update f (index_of key depth level_nbits) s.0), s.1, s.2)
          other
  unfolding lookup_value same_path
  dir_lem depth f key other s h =
      elim (Bool-cases (index_of key depth level_nbits == index_of other depth level_nbits)) [
        | inl same ↦ rw same (
            h
            ∙ ap
                (λ i.
                  if failed s.2
                  then lookup_value level_nbits depth (f i) other
                  else if same_path level_nbits depth key other
                  then s.1
                  else lookup_value level_nbits depth (f i) other)
                (==→eq (index_of key depth level_nbits) (index_of other depth level_nbits) same))
        | inr apart ↦ rw apart (
            either (failed s.2)
              (lookup_value level_nbits depth (f (index_of other depth level_nbits)) other))
      ]
    where
      either : (b : Bool) (x : ℕ) → x ≡ (if b then x else x)
      either true x = refl
      either false x = refl

  -- A new directory has no values.
  new_dir_lem :
      (depth key other : ℕ) (s : Entry × ℕ × Run S)
      → Answers (suc depth) (dir empty_dir) key s other
      → Answers (suc depth) null key s other
  new_dir_lem depth key other s h =
      h
      ∙ ap
          (λ x.
            if failed s.2
            then x
            else if same_path level_nbits (suc depth) key other
            then s.1
            else x)
          empty
    where
      empty :
          lookup_value level_nbits (suc depth) (dir empty_dir) other
          ≡ lookup_value level_nbits (suc depth) null other
      empty = unfold lookup_value in lookup-null level_nbits depth other

  -- A search that ends without a value where there is none.
  no_value_lem :
      (depth : ℕ) (e : Entry) (key other : ℕ) (r : Run S)
      → lookup_value level_nbits depth e other ≡ 0
      → Answers depth e key (e, 0, r) other
  no_value_lem depth e key other r h =
      cases (failed r) (same_path level_nbits depth key other)
        (lookup_value level_nbits depth e other) h
    where
      cases : (b c : Bool) (x : ℕ) → x ≡ 0 → x ≡ (if b then x else if c then 0 else x)
      cases true c x h = refl
      cases false true x h = h
      cases false false x h = refl

  -- A search that enters a directory.
  entered_lem :
      (depth : ℕ) (e : Entry) (f : ℕ → Entry) (key other : ℕ) (q : Run S)
      (next : Entry → Run S → Entry × ℕ × Run S)
      → failed q ≡ false
      → let i = index_of key depth level_nbits in
        let s = next (f i) q in
        Answers (suc depth) e key (dir (update f i s.0), s.1, s.2) other
        → Answers
            (suc depth)
            e
            key
            (in_dir malloc errno level_nbits value_create e i (some f, q) next)
            other
  unfolding in_dir
  entered_lem depth e f key other q next ok h =
      subst (λ s. Answers (suc depth) e key s other) (sym (if_false (failed q) _ _ ok)) h

  made_lem :
      (create : Option (ℕ → Run S → ℕ × Run S)) (depth key other : ℕ) (r : Run S)
      (next : Entry → Run S → Entry × ℕ × Run S)
      → failed r ≡ false
      → ((q : Run S) → failed q ≡ false → Answers depth null key (next null q) other)
      → Answers
          (suc depth)
          null
          key
          (in_dir malloc errno level_nbits value_create null
            (index_of key depth level_nbits)
            (create_dir malloc errno level_nbits value_create create r)
            next)
          other
  unfolding create_dir dir_create in_dir
  made_lem none depth key other r next ok h =
      no_value_lem (suc depth) null key other r (lookup-null level_nbits (suc depth) other)
  made_lem (some f) depth key other r next ok h = elim (Bool-cases (malloc r.world).0) [
    | inl done ↦
        let q : Run S = record r { world = (malloc r.world).1 } in
        let i = index_of key depth level_nbits in
        rw done (
          entered_lem depth null empty_dir key other q next (unfold failed in ok) (
            new_dir_lem depth key other
              (dir (update empty_dir i (next null q).0), (next null q).1, (next null q).2)
              (dir_lem depth empty_dir key other (next null q) (h q (unfold failed in ok)))))
    | inr full ↦ rw full (
        no_value_lem (suc depth) null key other
          (record {
            world = (malloc r.world).1;
            error = set_errno r.error (errno (malloc r.world).1);
          })
          (lookup-null level_nbits (suc depth) other))
  ]

  shallower :
      (depth : ℕ)
      → suc depth * level_nbits < 64 + level_nbits
      → depth * level_nbits < 64 + level_nbits
  shallower depth fits = omega (arith, suc-mul depth level_nbits)

  at_index :
      (depth : ℕ) (e : Entry) (key other : ℕ) (r : Run S)
      → suc depth * level_nbits < 64 + level_nbits
      → (next : Entry → Run S → Entry × ℕ × Run S)
      → Answers
          (suc depth)
          e
          key
          (in_dir malloc errno level_nbits value_create e
            (index_of key depth level_nbits)
            (retrieve_dir malloc errno level_nbits value_create e r)
            next)
          other
      → Answers
          (suc depth)
          e
          key
          (in_dir malloc errno level_nbits value_create e
            (entry_index key depth level_nbits)
            (retrieve_dir malloc errno level_nbits value_create e r)
            next)
          other
  at_index depth e key other r fits next h =
      subst
        (λ i.
          Answers (suc depth) e key
            (in_dir malloc errno level_nbits value_create e i
              (retrieve_dir malloc errno level_nbits value_create e r) next)
            other)
        (sym
          (entry_index-index_of key depth level_nbits (omega (arith, suc-mul depth level_nbits))))
        h

  -- A search for a key in a tree of any depth, with or without the creation of what is missing. If it reports
  -- no error, the keys that lead to the same entry have the value of its answer, and every other key has
  -- the value that it had. If it reports one, every key has the value that it had. Every shift of the search
  -- is by less than 64 bits.
  pub lookup_value-find_entry :
      (depth : ℕ) (e : Entry) (key other : ℕ) (r : Run S)
      → depth * level_nbits < 64 + level_nbits
      → failed r ≡ false
      → let s = find_entry malloc errno level_nbits value_create depth e key r in
        lookup_value level_nbits depth s.0 other ≡ (
          if failed s.2
          then lookup_value level_nbits depth e other
          else if same_path level_nbits depth key other
          then s.1
          else lookup_value level_nbits depth e other)
  unfolding find_entry retrieve_dir in_dir
  lookup_value-find_entry zero e key other r fits ok = value_lem e key other r ok
  lookup_value-find_entry (suc depth) null key other r fits ok =
      at_index depth null key other r fits
        (λ e' r'. find_entry malloc errno level_nbits value_create depth e' key r')
        (made_lem value_create depth key other r
          (λ e' r'. find_entry malloc errno level_nbits value_create depth e' key r') ok
          (λ q fine. lookup_value-find_entry depth null key other q (shallower depth fits) fine))
  lookup_value-find_entry (suc depth) (value v) key other r fits ok =
      no_value_lem (suc depth) (value v) key other r (unfold lookup_value in refl)
  lookup_value-find_entry (suc depth) (dir f) key other r fits ok =
      at_index depth (dir f) key other r fits
        (λ e' r'. find_entry malloc errno level_nbits value_create depth e' key r')
        (entered_lem depth (dir f) f key other r
          (λ e' r'. find_entry malloc errno level_nbits value_create depth e' key r') ok
          (dir_lem depth f key other
            (find_entry malloc errno level_nbits value_create depth
              (f (index_of key depth level_nbits)) key r)
            (lookup_value-find_entry depth (f (index_of key depth level_nbits)) key other r
              (shallower depth fits) ok)))
