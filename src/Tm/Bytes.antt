-- ===== src/Tm/Bytes.antt =====
-- modules/tm/src/vmem_tx.c: copies of bytes, and which of them a block has.
use picotm.Prelude.{
  Bool-cases, ==→eq, false, ℕ, zero, suc, ◌+◌, ◌-◌, ◌*◌, ◌/◌, ◌%◌, ◌^◌, ◌≤◌, ◌<◌, ◌≡◌, ◌⊎◌, inl,
  inr, refl, ◌∙◌, ap, arith, Bool, true, ◌&&◌, List, [], ◌∷◌, ◌++◌, length, take, drop, ◌==◌, leb,
  ltb, if◌then◌else◌,
}
use picotm.Prelude.Count.{update}
use picotm.Tm.Transaction.{copy_bits, read_range, copy_in}

-- A byte outside the range stays.
pub copy_in-outside :
    (f : ℕ → ℕ) (from : ℕ) (bs : List ℕ) (j : ℕ)
    → (j < from) ⊎ (from + length bs ≤ j)
    → copy_in f from bs j ≡ f j
unfolding copy_in
copy_in-outside f from [] j h = refl
copy_in-outside f from (b ∷ bs) j (inl h) =
    copy_in-outside (update f from b) (suc from) bs j (inl (omega arith)) ∙ ground arith
copy_in-outside f from (b ∷ bs) j (inr h) =
    copy_in-outside (update f from b) (suc from) bs j (inr (omega arith)) ∙ ground arith

-- The copy depends on the byte at its place only, and moves with the range. The byte there matters only
-- outside the range.
pub copy_in-shift :
    (f g : ℕ → ℕ) (k from : ℕ) (bs : List ℕ) (i : ℕ)
    → f i ≡ g (k + i)
    → copy_in f from bs i ≡ copy_in g (k + from) bs (k + i)
unfolding copy_in
copy_in-shift f g k from [] i h = h
copy_in-shift f g k from (b ∷ bs) i h =
    copy_in-shift (update f from b) (update g (k + from) b) k (suc from) bs i (ground arith)
    ∙ ap (λ n. copy_in (update g (k + from) b) n bs (k + i)) (omega arith)

-- A range may be copied in two parts.
pub copy_in-split :
    (f : ℕ → ℕ) (from n : ℕ) (bs : List ℕ)
    → n ≤ length bs
    → copy_in (copy_in f from (take n bs)) (from + n) (drop n bs) ≡ copy_in f from bs
unfolding copy_in
copy_in-split f from zero bs h = ap (λ k. copy_in f k bs) (omega arith)
copy_in-split f from (suc n) [] h = elim h [ ]
copy_in-split f from (suc n) (b ∷ bs) h =
    ap (λ k. copy_in (copy_in (update f from b) (suc from) (take n bs)) k (drop n bs)) (omega arith)
    ∙ copy_in-split (update f from b) (suc from) n bs (omega arith)

pub read_range-append :
    (f : ℕ → ℕ) (from m n : ℕ)
    → read_range f from (m + n) ≡ read_range f from m ++ read_range f (from + m) n
unfolding read_range
read_range-append f from zero n = rw (zero_add n, add_zero from)
  where
    zero_add : (n : ℕ) → 0 + n ≡ n
    zero_add n = omega arith

    add_zero : (n : ℕ) → n + 0 ≡ n
    add_zero n = omega arith
read_range-append f from (suc m) n =
    ap (λ k. read_range f from k) (suc_add m n)
    ∙ ap (◌∷◌ (f from)) (
        read_range-append f (suc from) m n
        ∙ ap (λ k. read_range f (suc from) m ++ read_range f k n) (omega arith))
  where
    suc_add : (m n : ℕ) → suc m + n ≡ suc (m + n)
    suc_add m n = omega arith

-- Two buffers that agree on a range, up to a shift, have the same bytes there.
pub read_range-shift :
    (f g : ℕ → ℕ) (k from n : ℕ)
    → ((i : ℕ) → from ≤ i → i < from + n → f i ≡ g (k + i))
    → read_range f from n ≡ read_range g (k + from) n
unfolding read_range
read_range-shift f g k from zero h = refl
read_range-shift f g k from (suc n) h =
    ap (λ x. x ∷ read_range f (suc from) n) (h from (omega arith) (omega arith))
    ∙ ap (◌∷◌ (g (k + from))) (
        read_range-shift f g k (suc from) n (λ i l u. h i (omega arith) (omega arith))
        ∙ ap (λ a. read_range g a n) (omega arith))

pub length-read_range : (f : ℕ → ℕ) (from n : ℕ) → length (read_range f from n) ≡ n
unfolding read_range
length-read_range f from zero = refl
length-read_range f from (suc n) = ap suc (length-read_range f (suc from) n)

-- Whether a test holds of the offsets below a bound.
unfoldable pub holds_to : (ℕ → Bool) → ℕ → Bool
holds_to test zero = true
holds_to test (suc bound) = if holds_to test bound then test bound else false

pub holds_to_lem :
    (test : ℕ → Bool) (bound i : ℕ) → i < bound → holds_to test bound ≡ true → test i ≡ true
unfolding holds_to
holds_to_lem test zero i l h = elim l [ ]
holds_to_lem test (suc bound) i l h = elim (Bool-cases (i == bound)) [
  | inl last ↦ ground (arith, ap test (==→eq i bound last))
  | inr before ↦ holds_to_lem test bound i (ground arith) (ground arith)
]

-- For `a` below 8, `s` up to 8 and `i` below 8: the bit is set in the range.
abbrev in_range : ℕ → ℕ → ℕ → Bool
in_range a s i = leb a i && ltb i (a + s)

abbrev bit_right : ℕ → ℕ → ℕ → Bool
bit_right a s i = if in_range a s i then copy_bits a s i else true

abbrev sizes_right : ℕ → ℕ → Bool
sizes_right a s = holds_to (bit_right a s) 8

abbrev heads_right : ℕ → Bool
heads_right a = holds_to (sizes_right a) 9

bits_table : holds_to heads_right 8 ≡ true
unfolding holds_to copy_bits
bits_table = refl

abbrev at_most_8 : ℕ → ℕ
at_most_8 s = if ltb s 8 then s else 8

copy_bits_reduced : (addr siz i : ℕ) → copy_bits addr siz i ≡ copy_bits (addr % 8) (at_most_8 siz) i
unfolding copy_bits
copy_bits_reduced addr siz i =
    ap (λ h. copy_bits_at h (at_most_8 siz)) (omega arith)
    ∙ ap (λ s. copy_bits_at (addr % 8 % 8) s) (ground arith)
  where
    copy_bits_at : ℕ → ℕ → Bool
    copy_bits_at h s = 255 / 2 ^ (8 - s) * 2 ^ h % 256 / 2 ^ i % 2 == 1

-- The offsets of the range, from the offset of the address on, have their bits set.
pub copy_bits-range :
    (addr siz i : ℕ) → i < 8 → addr % 8 ≤ i → i < addr % 8 + siz → copy_bits addr siz i ≡ true
copy_bits-range addr siz i l from to = copy_bits_reduced addr siz i ∙ ground (arith, row)
  where
    head : heads_right (addr % 8) ≡ true
    head = holds_to_lem heads_right 8 (addr % 8) (omega arith) bits_table

    size : sizes_right (addr % 8) (at_most_8 siz) ≡ true
    size = holds_to_lem (sizes_right (addr % 8)) 9 (at_most_8 siz) (ground arith) head

    row : bit_right (addr % 8) (at_most_8 siz) i ≡ true
    row = holds_to_lem (bit_right (addr % 8) (at_most_8 siz)) 8 i l size
