-- ===== src/Prelude/Count.antt =====
-- Families indexed by a thread's number: an update at one thread, and sums over the first `n`.
use picotm.Prelude.{
  ℕ, zero, suc, ◌+◌, ◌≤◌, ◌<◌, ◌≡◌, refl, inl, inr, arith, ◌==◌, ==→eq, if◌then◌else◌, Bool-cases,
}

abbrev pub update {ℓ} : {A : Type ℓ} → (ℕ → A) → ℕ → A → ℕ → A
update f i a j = if i == j then a else f j

module _ {ℓ} {A : Type ℓ} (w : A → ℕ) where
  pub count : ℕ → (ℕ → A) → ℕ
  count zero f = 0
  count (suc n) f = count n f + w (f n)

  count-update_above :
      (n : ℕ) (f : ℕ → A) (i : ℕ) (a : A) → n ≤ i → count n (update f i a) ≡ count n f
  unfolding count
  count-update_above zero f i a h = refl
  count-update_above (suc n) f i a h = ground (arith, count-update_above n f i a)

  -- What one thread contributes changes, and nothing else.
  pub count-update :
      (n : ℕ) (f : ℕ → A) (i : ℕ) (a : A)
      → i < n
      → count n (update f i a) + w (f i) ≡ count n f + w a
  unfolding count
  count-update zero f i a h = elim h [ ]
  count-update (suc n) f i a h = ground (arith, count-update n f i a, count-update_above n f i a)

  pub count-ge : (n : ℕ) (f : ℕ → A) (i : ℕ) → i < n → w (f i) ≤ count n f
  unfolding count
  count-ge zero f i h = elim h [ ]
  count-ge (suc n) f i h = elim (Bool-cases (i == n)) [
    | inl last ↦ rw (==→eq i n last) (omega arith)
    | inr below ↦ omega (arith, count-ge n f i (ground arith))
  ]

  pub count-eq-zero : (n : ℕ) (f : ℕ → A) → ((i : ℕ) → w (f i) ≡ 0) → count n f ≡ 0
  unfolding count
  count-eq-zero zero f h = refl
  count-eq-zero (suc n) f h = omega (arith, count-eq-zero n f h, h n)
