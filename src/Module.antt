-- ===== src/Module.antt =====
-- src/picotm_module.h and src/picotm_module.c: a registered module is a table of optional call-backs
-- and a data pointer.
--
-- `S` is everything outside the transaction manager that call-backs read and write. A call-back
-- takes the error that is passed by reference within `Run`, and returns it there. The pointers `self`
-- and `self->ops` are not null (the source asserts it).
use picotm.Prelude.{ℕ, Bool, Option, none, some}
use picotm.Error.{Error, is_set}

-- What a function with a trailing `struct picotm_error*` works on.
pub record Run (S : Type 0) : Type 0 where
  pub world : S
  pub error : Error

unfoldable pub failed : {S : Type 0} → Run S → Bool
unfolding is_set
failed r = is_set r.error

-- struct picotm_module_ops
pub record ModuleOps (S : Type 0) : Type 0 where
  pub release : Option (ℕ → S → S)
  pub begin : Option (ℕ → Run S → Run S)
  pub prepare_commit : Option (ℕ → Bool → Run S → Run S)
  pub apply : Option (ℕ → Run S → Run S)
  pub undo : Option (ℕ → Run S → Run S)
  pub apply_event : Option (ℕ → ℕ → ℕ → Run S → Run S)
  pub undo_event : Option (ℕ → ℕ → ℕ → Run S → Run S)
  pub finish : Option (ℕ → Run S → Run S)

pub record Module (S : Type 0) : Type 0 where
  pub ops : ModuleOps S
  pub data_ptr : ℕ

module _ {S : Type 0} where
  unfoldable pub module_init : ModuleOps S → ℕ → Module S
  module_init ops data_ptr = record { ops = ops; data_ptr = data_ptr }

  unfoldable pub module_release : Module S → S → S
  module_release m s = elim m.ops.release [ none ↦ s | some f ↦ f m.data_ptr s ]

  unfoldable pub module_begin : Module S → Run S → Run S
  module_begin m r = elim m.ops.begin [ none ↦ r | some f ↦ f m.data_ptr r ]

  unfoldable pub module_prepare_commit : Module S → Bool → Run S → Run S
  module_prepare_commit m noundo r = elim m.ops.prepare_commit [
    | none ↦ r
    | some f ↦ f m.data_ptr noundo r
  ]

  unfoldable pub module_apply : Module S → Run S → Run S
  module_apply m r = elim m.ops.apply [ none ↦ r | some f ↦ f m.data_ptr r ]

  unfoldable pub module_undo : Module S → Run S → Run S
  module_undo m r = elim m.ops.undo [ none ↦ r | some f ↦ f m.data_ptr r ]

  unfoldable pub module_apply_event : Module S → ℕ → ℕ → Run S → Run S
  module_apply_event m head tail r = elim m.ops.apply_event [
    | none ↦ r
    | some f ↦ f head tail m.data_ptr r
  ]

  unfoldable pub module_undo_event : Module S → ℕ → ℕ → Run S → Run S
  module_undo_event m head tail r = elim m.ops.undo_event [
    | none ↦ r
    | some f ↦ f head tail m.data_ptr r
  ]

  unfoldable pub module_finish : Module S → Run S → Run S
  module_finish m r = elim m.ops.finish [ none ↦ r | some f ↦ f m.data_ptr r ]
