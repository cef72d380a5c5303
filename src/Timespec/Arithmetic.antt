-- ===== src/Timespec/Arithmetic.antt =====
-- src/picotm_os_timespec.c: what the sum, the difference and the comparison mean in nanoseconds.
use picotm.Prelude.{ℕ, ◌+◌, ◌-◌, ◌*◌, ◌≤◌, ◌<◌, ◌^◌, ◌≡◌, arith, ltb, if◌then◌else◌}
use picotm.Prelude.Int.{pos, ◌+ℤ◌, ◌-ℤ◌, pos_part, neg_part, +ℤ_parts, -ℤ_parts}
use picotm.Timespec.{
  Timespec, max_nsec, add_timespec, sub_timespec, Sign, less, equal, greater, timespec_compare,
  ulonglong_cmp, to_ulonglong,
}

-- The nanoseconds are less than a second.
abbrev pub IsNormal : Timespec → Type 0
IsNormal t = t.tv_nsec ≤ max_nsec

-- A time in nanoseconds is `plus` less `minus`.
abbrev pub plus : Timespec → ℕ
plus t = pos_part t.tv_sec * 1000000000 + t.tv_nsec

abbrev pub minus : Timespec → ℕ
minus t = neg_part t.tv_sec * 1000000000

-- The sum of two normal times is normal, and is their sum in nanoseconds.
pub add_timespec_lem :
    (a b : Timespec)
    → IsNormal a
    → IsNormal b
    → IsNormal (add_timespec a b)
      × (plus (add_timespec a b) + minus a + minus b ≡ minus (add_timespec a b) + plus a + plus b)
unfolding add_timespec
add_timespec_lem a b ha hb = ground (
  arith,
  +ℤ_parts b.tv_sec (pos (if ltb (max_nsec - b.tv_nsec) a.tv_nsec then 1 else 0)),
  +ℤ_parts a.tv_sec (b.tv_sec +ℤ pos (if ltb (max_nsec - b.tv_nsec) a.tv_nsec then 1 else 0)),
)

-- The difference of two normal times is normal. It is their difference in nanoseconds if no
-- nanoseconds are borrowed, and two seconds more than it if some are.
pub sub_timespec_lem :
    (a b : Timespec)
    → IsNormal a
    → IsNormal b
    → IsNormal (sub_timespec a b)
      × (plus (sub_timespec a b) + minus a + plus b
          ≡ minus (sub_timespec a b)
            + plus a
            + minus b
            + (if ltb a.tv_nsec b.tv_nsec then 2000000000 else 0))
unfolding sub_timespec
sub_timespec_lem a b ha hb = ground (
  arith,
  -ℤ_parts b.tv_sec (pos (if ltb a.tv_nsec b.tv_nsec then 1 else 0)),
  -ℤ_parts a.tv_sec (b.tv_sec -ℤ pos (if ltb a.tv_nsec b.tv_nsec then 1 else 0)),
)

-- The order of two numbers, as the comparison reports it.
abbrev pub Reports : Sign → ℕ → ℕ → Type 0
Reports less a b = a < b
Reports equal a b = a ≡ b
Reports greater a b = b < a

-- For normal times from the epoch on, the comparison reports the order of the times in nanoseconds.
pub timespec_compare_lem :
    (s t m n : ℕ)
    → s < 2 ^ 63
    → t < 2 ^ 63
    → m ≤ max_nsec
    → n ≤ max_nsec
    → Reports
        (timespec_compare
          (record { tv_sec = pos s; tv_nsec = m })
          (record { tv_sec = pos t; tv_nsec = n }))
        (s * 1000000000 + m)
        (t * 1000000000 + n)
unfolding timespec_compare ulonglong_cmp to_ulonglong
timespec_compare_lem s t m n hs ht hm hn = ground arith
