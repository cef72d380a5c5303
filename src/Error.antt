-- ===== src/Error.antt =====
-- include/picotm/picotm-error.h, include/picotm/picotm-error-base.h and src/picotm-error.c: the
-- error that every fallible function of the transaction manager fills in.
--
-- `clear` is the status 0, no error. The union `value` is the data type `Value`; a setter that does
-- not write the union leaves it, as in C. A lock, an errno code, a kernel's return value and a
-- signal's information are numbers, a description is a text.
use Prim.Native.String.{String}
use picotm.Prelude.{ℕ, ◌≡◌, refl, Bool, true, false, not, ◌&&◌, Option, none}

pub data ErrorCode : Type 0 where
  general_error out_of_memory invalid_fenv out_of_bounds : ErrorCode

pub data ErrorStatus : Type 0 where
  clear conflicting revocable error_code errno kern_return_t siginfo_t : ErrorStatus

pub data Value : Type 0 where
  no_value : Value
  conflicting_lock : Option ℕ → Value
  error_hint : ErrorCode → Value
  errno_hint : ℕ → Value
  kern_return_t_value : ℕ → Value
  siginfo_t_info : ℕ → Value

pub record Error : Type 0 where
  pub status : ErrorStatus
  pub is_non_recoverable : Bool
  pub description : Option String
  pub value : Value

-- PICOTM_ERROR_INITIALIZER
abbrev pub error_initializer : Error
error_initializer = record {
  status = clear;
  is_non_recoverable = false;
  description = none;
  value = no_value;
}

abbrev set_status : ErrorStatus → Bool
set_status clear = false
set_status _ = true

-- picotm_error_is_set()
unfoldable pub is_set : Error → Bool
is_set e = set_status e.status

abbrev conflicting_status : ErrorStatus → Bool
conflicting_status conflicting = true
conflicting_status _ = false

abbrev revocable_status : ErrorStatus → Bool
revocable_status revocable = true
revocable_status _ = false

unfoldable pub is_conflicting : Error → Bool
is_conflicting e = conflicting_status e.status

unfoldable pub is_revocable : Error → Bool
is_revocable e = revocable_status e.status

unfoldable pub is_error : Error → Bool
unfolding is_set is_conflicting
is_error e = is_set e && not (is_conflicting e)

unfoldable pub error_clear : Error → Error
error_clear e = record e { status = clear; is_non_recoverable = false; description = none }

unfoldable pub set_conflicting : Error → Option ℕ → Error
set_conflicting e lock = record {
  status = conflicting;
  is_non_recoverable = false;
  description = none;
  value = conflicting_lock lock;
}

unfoldable pub set_revocable : Error → Error
set_revocable e = record e { status = revocable; is_non_recoverable = false; description = none }

unfoldable pub set_error_code : Error → ErrorCode → Error
set_error_code e hint = record {
  status = error_code;
  is_non_recoverable = false;
  description = none;
  value = error_hint hint;
}

unfoldable pub set_errno : Error → ℕ → Error
set_errno e hint = record {
  status = errno;
  is_non_recoverable = false;
  description = none;
  value = errno_hint hint;
}

abbrev pub mark_as_non_recoverable : Error → Error
mark_as_non_recoverable e = record e { is_non_recoverable = true }

pub is_set-set_errno : (e : Error) (hint : ℕ) → is_set (set_errno e hint) ≡ true
unfolding is_set set_errno
is_set-set_errno e hint = refl

pub is_set-set_error_code : (e : Error) (hint : ErrorCode) → is_set (set_error_code e hint) ≡ true
unfolding is_set set_error_code
is_set-set_error_code e hint = refl

pub is_set-set_conflicting : (e : Error) (lock : Option ℕ) → is_set (set_conflicting e lock) ≡ true
unfolding is_set set_conflicting
is_set-set_conflicting e lock = refl

pub is_set-initializer : is_set error_initializer ≡ false
unfolding is_set
is_set-initializer = refl

pub is_set-mark : (e : Error) → is_set (mark_as_non_recoverable e) ≡ is_set e
unfolding is_set
is_set-mark e = refl
