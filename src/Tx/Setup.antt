-- ===== src/Tx/Setup.antt =====
-- src/picotm_tx.c: the set-up and the release of a transaction, with those of its lock owner in
-- src/picotm_lock_owner.c.
--
-- The functions of POSIX threads are parameters. A destruction succeeds (the source repeats it until it does),
-- and to free the table of the log has no effect on the state.
use picotm.Prelude.{
  ℕ, ◌≤◌, ◌<◌, ◌≡◌, refl, subst, sym, ◌∙◌, ap, arith, Bool, true, false, true≢false, inl, inr,
  Option, none, some, List, [], ◌∷◌, ==→eq, if◌then◌else◌, if_false, Bool-cases, ◌==◌,
}
use picotm.Module.{Run, failed, Module, module_release}
use picotm.Os.{PthreadRwlock, report}
use picotm.Log.{log_init, log_events}
use picotm.LockOwner.{LockOwner, get_index}
use picotm.LockManager.{LockManager, nlos, Registered, register_owner, unregister_owner}
use picotm.LockManager.Registry.{IsValid, holder}
use picotm.LockManager.Register.{register_owner_lem, unregister_owner_lem}
use picotm.Tx.{Tx, revocable, tx_is_irrevocable}

-- The calls on the mutex and the condition variable of an owner: 0 or an errno code, and the new state.
pub record PthreadOwner (S : Type 0) : Type 0 where
  pub mutex_init : S → ℕ × S
  pub cond_init : S → ℕ × S
  pub mutex_destroy : S → S
  pub cond_destroy : S → S

pub record Inited (S : Type 0) : Type 0 where
  pub s_lowmem : Bool
  pub tx : Tx S
  pub run : Run S

module _ {S : Type 0} (os : PthreadOwner S) where
  unfoldable pub lock_owner_init : LockOwner → Run S → LockOwner × Run S
  lock_owner_init self r =
      let r1 = report r (os.mutex_init r.world) in
      let r2 = report r1 (os.cond_init r1.world) in
      if failed r1
      then (self, r1)
      else if failed r2
      then (self, record r2 { world = os.mutex_destroy r2.world })
      else (record self { flags = 0; next = none }, r2)

  abbrev pub lock_owner_uninit : S → S
  lock_owner_uninit s = os.cond_destroy (os.mutex_destroy s)

  module _ (lo_rwlock : PthreadRwlock S) (realloc : Option ℕ → ℕ → Option ℕ × ℕ) (s_lowmem : Bool)
      (errno : ℕ) where
    abbrev pub owner_registered : Tx S → LockManager → Run S → Registered S
    owner_registered self lm r =
        let (lo, r1) = lock_owner_init self.lo r in
        register_owner lo_rwlock realloc s_lowmem errno lm lo r1

    unfoldable pub tx_init : Tx S → LockManager → Run S → Inited S
    tx_init self lm r =
        let (lo, r1) = lock_owner_init self.lo r in
        let reg = register_owner lo_rwlock realloc s_lowmem errno lm lo r1 in
        let tx : Tx S = record {
          env = none;
          log = log_init;
          mode = revocable;
          nretries = 0;
          lm = lm;
          lo = lo;
          modules = [];
        } in
        if failed r1
        then record { s_lowmem = s_lowmem; tx = tx; run = r1 }
        else if failed reg.run
        then (record {
          s_lowmem = reg.s_lowmem;
          tx = record tx { lm = reg.lm; lo = reg.owner };
          run = record (reg.run) { world = lock_owner_uninit reg.run.world };
        })
        else (record {
          s_lowmem = reg.s_lowmem;
          tx = record tx { lm = reg.lm; lo = reg.owner };
          run = reg.run;
        })

  -- The modules in the order of their registration.
  release_modules : List (Module S) → S → S
  release_modules [] s = s
  release_modules (m ∷ ms) s = release_modules ms (module_release m s)

  unfoldable pub tx_release : Tx S → S → LockManager × S
  unfolding release_modules
  tx_release self s =
      (unregister_owner self.lm self.lo, release_modules self.modules (lock_owner_uninit s))

module _ {S : Type 0} (os : PthreadOwner S) (lo_rwlock : PthreadRwlock S)
    (realloc : Option ℕ → ℕ → Option ℕ × ℕ) (s_lowmem : Bool) (errno : ℕ) (self : Tx S)
    (lm : LockManager) (r : Run S) where
  abbrev inited : Inited S
  inited = tx_init os lo_rwlock realloc s_lowmem errno self lm r

  abbrev reg : Registered S
  reg = owner_registered os lo_rwlock realloc s_lowmem errno self lm r

  failed-world : (q : Run S) (s : S) → failed (record q { world = s }) ≡ failed q
  unfolding failed
  failed-world q s = refl

  -- A set-up without an error has registered the owner.
  inited_lem :
      failed inited.run ≡ false
      → (failed reg.run ≡ false)
        × (inited.tx ≡ record {
          env = none;
          log = log_init;
          mode = revocable;
          nretries = 0;
          lm = reg.lm;
          lo = reg.owner;
          modules = [];
        })
  unfolding tx_init
  inited_lem ok = elim (Bool-cases (failed (lock_owner_init os self.lo r).1)) [
    | inl bad ↦ let no : true ≡ false = sym bad ∙ (rw bad at ok) in absurd (true≢false no)
    | inr good ↦ elim (Bool-cases (failed reg.run)) [
      | inl bad ↦
          let q : failed (record (reg.run) { world = lock_owner_uninit os reg.run.world }) ≡ false =
            rw (good, bad) at ok in
          absurd (
            true≢false
              (sym bad ∙ sym (failed-world reg.run (lock_owner_uninit os reg.run.world)) ∙ q))
      | inr fine ↦ rw (good, fine) (refl, refl)
    ]
  ]

  -- A transaction that is set up without an error has no modules and no events, and is not irrevocable. It
  -- stands at a positive index in the registry, where nobody stood before, also if the registry was empty
  -- or had to grow; at every other index `j` stands who stood there. After its release everybody stands where
  -- he stood before the set-up, and nobody anywhere else, the index of the transaction included. The
  -- hypotheses are those of a registration.
  pub tx_release-tx_init :
      (j : ℕ) (s : S)
      → IsValid lm
      → failed (tx_init os lo_rwlock realloc s_lowmem errno self lm r).run ≡ false
      → nlos (tx_init os lo_rwlock realloc s_lowmem errno self lm r).tx.lm ≤ 1024
      → let tx = (tx_init os lo_rwlock realloc s_lowmem errno self lm r).tx in
        (tx.modules ≡ [])
        × (log_events tx.log ≡ [])
        × (tx_is_irrevocable tx ≡ false)
        × (0 < get_index tx.lo)
        × (holder lm.owners (get_index tx.lo) ≡ none)
        × (holder tx.lm.owners j
            ≡ (if j == get_index tx.lo then some self.lo.address else holder lm.owners j))
        × (holder (tx_release os tx s).0.owners j ≡ holder lm.owners j)
  unfolding tx_release log_init log_events tx_is_irrevocable
  tx_release-tx_init j s valid ok small =
      let (fine, eq) = inited_lem ok in
      let few : nlos reg.lm ≤ 1024 = subst (λ (t : Tx S). nlos t.lm ≤ 1024) eq small in
      let (positive, inside, unused, held, valid', exclusive) =
        register_owner_lem lo_rwlock realloc s_lowmem errno lm (lock_owner_init os self.lo r).0
          (lock_owner_init os self.lo r).1 j valid fine few in
      (
        ap (λ (t : Tx S). t.modules) eq,
        ap (λ (t : Tx S). log_events t.log) eq,
        ap tx_is_irrevocable eq,
        subst (λ (t : Tx S). 0 < get_index t.lo) (sym eq) positive,
        subst (λ (t : Tx S). holder lm.owners (get_index t.lo) ≡ none) (sym eq) unused,
        subst
            (λ (t : Tx S).
              holder t.lm.owners j
              ≡ (if j == get_index t.lo then some self.lo.address else holder lm.owners j))
            (sym eq)
            (held
              ∙ ap (λ a. if j == get_index reg.owner then some a else holder lm.owners j)
                  same_address),
        subst (λ (t : Tx S). holder (unregister_owner t.lm t.lo).owners j ≡ holder lm.owners j)
            (sym eq)
            (unregister_owner_lem reg.lm reg.owner j inside
              ∙ restored (get_index reg.owner) (lock_owner_init os self.lo r).0.address unused
                  held),
      )
    where
      same_address : (lock_owner_init os self.lo r).0.address ≡ self.lo.address
      same_address = unfold lock_owner_init in ground arith

      restored :
          (i a : ℕ)
          → holder lm.owners i ≡ none
          → holder reg.lm.owners j ≡ (if j == i then some a else holder lm.owners j)
          → (if j == i then none else holder reg.lm.owners j) ≡ holder lm.owners j
      restored i a free h = elim (Bool-cases (j == i)) [
        | inl same ↦ rw same (sym free ∙ ap (holder lm.owners) (sym (==→eq j i same)))
        | inr other ↦ rw other (h ∙ if_false (j == i) _ _ other)
      ]
