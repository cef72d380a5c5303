-- ===== src/Fildes/Ranges.antt =====
-- modules/libc/src/fildes/ioop.c: the intersection of two ranges.
use picotm.Prelude.{
  ℕ, ◌+◌, ◌-◌, ◌^◌, ◌≤◌, ◌<◌, ◌≡◌, inl, inr, refl, ◌∙◌, ap, arith, Bool, false, ◌&&◌, ◌||◌, Option,
  none, some, ◌==◌, ltb, if◌then◌else◌, Bool-cases, if_true, if_false, ap₂, ==→eq,
}
use picotm.Fildes.{
  word_mod, rangeisect, found_range, less_signed, last_common, add_word, sub_word, llmin,
}

-- A range that stays in the non-negative offsets.
abbrev pub Fits : ℕ → ℕ → Type 0
Fits off siz = off + siz < 2 ^ 63

abbrev pub max_of : ℕ → ℕ → ℕ
max_of a b = if ltb b a then a else b

abbrev pub min_of : ℕ → ℕ → ℕ
min_of a b = if ltb a b then a else b

-- What two ranges share, on numbers without a bound.
abbrev pub common_range : ℕ → ℕ → ℕ → ℕ → Option (ℕ × ℕ)
common_range off0 siz0 off1 siz1 =
    let from = max_of off0 off1 in
    let to = min_of (off0 + siz0) (off1 + siz1) in
    if ltb from to then some (from, to - from) else none

pub less_signed_lem : (a b : ℕ) → a < 2 ^ 63 → b < 2 ^ 63 → less_signed a b ≡ ltb a b
less_signed_lem a b h k = ground arith

pub add_word_lem : (a b : ℕ) → Fits a b → add_word a b ≡ a + b
add_word_lem a b h = omega arith

pub sub_word_lem : (a b : ℕ) → b ≤ a → a < word_mod → sub_word a b ≡ a - b
sub_word_lem a b h k = omega arith

found_range_lem :
    (from to : ℕ)
    → from < to
    → to < 2 ^ 63
    → found_range from (sub_word to 1) ≡ some (from, to - from)
found_range_lem from to h k =
    ap (λ t. found_range from t) (sub_word_lem to 1 (omega arith) (omega arith))
    ∙ ap (λ t. some (from, add_word t 1)) (sub_word_lem (to - 1) from (omega arith) (omega arith))
    ∙ ap (λ t. some (from, t)) (omega arith)

-- When the second range begins in the first one.
inner_lem :
    (off0 siz0 off1 siz1 : ℕ)
    → Fits off0 siz0
    → Fits off1 siz1
    → off0 ≤ off1
    → off1 < off0 + siz0
    → 0 < siz1
    → found_range off1 (last_common off0 siz0 off1 siz1) ≡ common_range off0 siz0 off1 siz1
inner_lem off0 siz0 off1 siz1 h k le lt pos =
    rw (add_word_lem off0 siz0 h, add_word_lem off1 siz1 k)
      (elim (Bool-cases (ltb (off1 + siz1) (off0 + siz0))) [
        | inl shorter ↦
            rw shorter
              (found_range_lem off1 (off1 + siz1) (omega arith) (omega arith) ∙ ground arith)
        | inr longer ↦
            rw longer
              (found_range_lem off1 (off0 + siz0) (omega arith) (omega arith) ∙ ground arith)
      ])

common_range-sym :
    (off0 siz0 off1 siz1 : ℕ) → common_range off0 siz0 off1 siz1 ≡ common_range off1 siz1 off0 siz0
common_range-sym off0 siz0 off1 siz1 = ground arith

-- When both ranges begin together.
level_lem :
    (off siz0 siz1 : ℕ)
    → Fits off siz0
    → Fits off siz1
    → 0 < siz0
    → 0 < siz1
    → found_range off (sub_word (add_word off (llmin siz0 siz1)) 1) ≡ common_range off siz0 off siz1
unfolding llmin
level_lem off siz0 siz1 h k p q =
    rw (less_signed_lem siz0 siz1 (omega arith) (omega arith)) (elim (Bool-cases (ltb siz0 siz1)) [
      | inl first ↦
          rw (first, add_word_lem off siz0 h)
            (found_range_lem off (off + siz0) (omega arith) (omega arith) ∙ ground arith)
      | inr second ↦
          rw (second, add_word_lem off siz1 k)
            (found_range_lem off (off + siz1) (omega arith) (omega arith) ∙ ground arith)
    ])

module _ (off0 siz0 off1 siz1 : ℕ) (h : Fits off0 siz0) (k : Fits off1 siz1) where
  -- The four cases of rangeisect(), with the tests on numbers.
  abbrev cases_of : Option (ℕ × ℕ)
  cases_of =
      if (siz0 == 0) || (siz1 == 0)
      then none
      else if ltb off0 off1 && ltb off1 (off0 + siz0)
      then found_range off1 (last_common off0 siz0 off1 siz1)
      else if ltb off1 off0 && ltb off0 (off1 + siz1)
      then found_range off0 (last_common off1 siz1 off0 siz0)
      else if off0 == off1
      then found_range off0 (sub_word (add_word off0 (llmin siz0 siz1)) 1)
      else none

  rangeisect_cases : rangeisect off0 siz0 off1 siz1 ≡ cases_of
  unfolding rangeisect
  rangeisect_cases =
      ap₂
        (λ (a b : Bool).
          if (siz0 == 0) || (siz1 == 0)
          then none
          else if a
          then found_range off1 (last_common off0 siz0 off1 siz1)
          else if b
          then found_range off0 (last_common off1 siz1 off0 siz0)
          else if off0 == off1
          then found_range off0 (sub_word (add_word off0 (llmin siz0 siz1)) 1)
          else none)
        (starts_in off0 siz0 off1 siz1 h k) (starts_in off1 siz1 off0 siz0 k h)
    where
      starts_in :
          (a m b n : ℕ)
          → Fits a m
          → Fits b n
          → (less_signed a b && less_signed b (add_word a m)) ≡ (ltb a b && ltb b (a + m))
      starts_in a m b n f g =
          rw
            (
              add_word_lem a m f,
              less_signed_lem a b (omega arith) (omega arith),
              less_signed_lem b (a + m) (omega arith) f,
            )
            refl

  pub rangeisect_lem : rangeisect off0 siz0 off1 siz1 ≡ common_range off0 siz0 off1 siz1
  rangeisect_lem = rangeisect_cases ∙ elim (Bool-cases ((siz0 == 0) || (siz1 == 0))) [
    | inl empty ↦ if_true ((siz0 == 0) || (siz1 == 0)) _ _ empty ∙ ground arith
    | inr full ↦
        if_false ((siz0 == 0) || (siz1 == 0)) _ _ full
        ∙ elim (Bool-cases (ltb off0 off1 && ltb off1 (off0 + siz0))) [
          | inl second_in ↦
              if_true (ltb off0 off1 && ltb off1 (off0 + siz0)) _ _ second_in
              ∙ inner_lem off0 siz0 off1 siz1 h k (ground arith) (ground arith) (ground arith)
          | inr apart ↦
              if_false (ltb off0 off1 && ltb off1 (off0 + siz0)) _ _ apart
              ∙ elim (Bool-cases (ltb off1 off0 && ltb off0 (off1 + siz1))) [
                | inl first_in ↦
                    if_true (ltb off1 off0 && ltb off0 (off1 + siz1)) _ _ first_in
                    ∙ inner_lem off1 siz1 off0 siz0 k h (ground arith) (ground arith) (ground arith)
                    ∙ common_range-sym off1 siz1 off0 siz0
                | inr apart2 ↦
                    if_false (ltb off1 off0 && ltb off0 (off1 + siz1)) _ _ apart2
                    ∙ level_or_none full apart apart2
              ]
        ]
  ]
    where
      level_or_none :
          ((siz0 == 0) || (siz1 == 0)) ≡ false
          → (ltb off0 off1 && ltb off1 (off0 + siz0)) ≡ false
          → (ltb off1 off0 && ltb off0 (off1 + siz1)) ≡ false
          → (if off0 == off1
              then found_range off0 (sub_word (add_word off0 (llmin siz0 siz1)) 1)
              else none)
            ≡ common_range off0 siz0 off1 siz1
      level_or_none full apart apart2 = elim (Bool-cases (off0 == off1)) [
        | inl level ↦
            let e = ==→eq off0 off1 level in
            if_true (off0 == off1) _ _ level
            ∙ level_lem off0 siz0 siz1 h (omega arith) (ground arith) (ground arith)
            ∙ ap (λ o. common_range off0 siz0 o siz1) e
        | inr different ↦ if_false (off0 == off1) _ _ different ∙ ground arith
      ]
