-- ===== src/Timespec.antt =====
-- src/picotm_os_timespec.c: points in time as seconds and nanoseconds.
--
-- `tv_sec` is an integer; the arithmetic of the source does not leave the 64 bits of time_t at the
-- dates of this program. `tv_nsec` stays in 0 ... 999999999 for valid operands, and is a number.
pub mod Arithmetic
use picotm.Prelude.{ℕ, ◌+◌, ◌-◌, ◌*◌, ◌%◌, ◌^◌, ◌≤◌, Bool, ltb, leb, if◌then◌else◌}
use picotm.Prelude.Int.{ℤ, pos, negsuc, ◌+ℤ◌, ◌-ℤ◌, pos_part, neg_part}

pub record Timespec : Type 0 where
  pub tv_sec : ℤ
  pub tv_nsec : ℕ

abbrev pub max_nsec : ℕ
max_nsec = 999999999

-- picotm_os_add_timespec(). The two updates of `tv_nsec` are one expression: what the second takes
-- off is less than the sum, so that no number goes below 0.
unfoldable pub add_timespec : Timespec → Timespec → Timespec
add_timespec lhs rhs =
    let carry = if ltb (max_nsec - rhs.tv_nsec) lhs.tv_nsec then 1 else 0 in
    record {
      tv_sec = lhs.tv_sec +ℤ (rhs.tv_sec +ℤ pos carry);
      tv_nsec = lhs.tv_nsec + rhs.tv_nsec - (max_nsec + 1) * carry;
    }

-- picotm_os_sub_timespec(). The second is added before the difference is taken.
unfoldable pub sub_timespec : Timespec → Timespec → Timespec
sub_timespec lhs rhs =
    let carry = if ltb lhs.tv_nsec rhs.tv_nsec then 1 else 0 in
    record {
      tv_sec = lhs.tv_sec -ℤ (rhs.tv_sec -ℤ pos carry);
      tv_nsec = lhs.tv_nsec + (max_nsec + 1) * carry - rhs.tv_nsec;
    }

-- The sign of a comparison: below 0, 0, and above 0.
pub data Sign : Type 0 where
  less equal greater : Sign

unfoldable pub ulonglong_cmp : ℕ → ℕ → Sign
ulonglong_cmp lhs rhs = if ltb rhs lhs then greater else if ltb lhs rhs then less else equal

-- The conversion from time_t to unsigned long long.
unfoldable pub to_ulonglong : ℤ → ℕ
to_ulonglong s = (pos_part s + 2 ^ 64 - neg_part s % 2 ^ 64) % 2 ^ 64

unfoldable pub timespec_compare : Timespec → Timespec → Sign
timespec_compare lhs rhs =
    let cmp = ulonglong_cmp (to_ulonglong lhs.tv_sec) (to_ulonglong rhs.tv_sec) in
    elim cmp [ equal ↦ ulonglong_cmp lhs.tv_nsec rhs.tv_nsec | other ↦ other ]
