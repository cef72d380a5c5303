-- ===== src/Fildes/Overlay.antt =====
-- modules/libc/src/fildes/iooptab.c: a range of a file with the pending writes over it.
use picotm.Prelude.{
  ℕ, ◌⊎◌, ◌+◌, ◌-◌, ◌^◌, ◌≤◌, ◌<◌, ◌≡◌, refl, sym, ◌∙◌, ap, ap₂, inl, inr, arith, ◌&&◌, some, List,
  [], ◌∷◌, ltb, leb, if◌then◌else◌, Bool-cases, if_true, if_false,
}
use picotm.Fildes.{
  IoOp, add_word, sub_word, memcpy, ioop_read, iooptab_read, read_from, llmax, read_common,
}
use picotm.Fildes.Ranges.{
  Fits, max_of, min_of, common_range, rangeisect_lem, add_word_lem, sub_word_lem, less_signed_lem,
}

-- The file after a write, on any file `f`.
abbrev pub overlay : IoOp → (ℕ → ℕ) → (ℕ → ℕ) → ℕ → ℕ
overlay op iobuf f a =
    if leb op.off a && ltb a (op.off + op.nbyte) then iobuf (op.bufoff + (a - op.off)) else f a

abbrev pub overlay_all : List IoOp → (ℕ → ℕ) → (ℕ → ℕ) → ℕ → ℕ
overlay_all [] iobuf f = f
overlay_all (op ∷ ops) iobuf f = overlay_all ops iobuf (overlay op iobuf f)

-- The size of the file after the writes.
abbrev pub grown_size : List IoOp → ℕ → ℕ
grown_size [] size = size
grown_size (op ∷ ops) size = grown_size ops (max_of size (op.off + op.nbyte))

-- Every write stays in the offsets and in its buffer, and begins where the file is not empty yet or at its
-- end.
abbrev pub OpFits : IoOp → Type 0
OpFits op = Fits op.off op.nbyte × Fits op.bufoff op.nbyte

abbrev pub AllFit : List IoOp → Type 0
AllFit [] = Unit {0}
AllFit (op ∷ ops) = OpFits op × AllFit ops

abbrev pub NoGap : List IoOp → ℕ → Type 0
NoGap [] size = Unit {0}
NoGap (op ∷ ops) size = (op.off ≤ size) × NoGap ops (max_of size (op.off + op.nbyte))

-- How far a write reaches into a range that is read.
abbrev reach : IoOp → ℕ → ℕ → ℕ
reach op nbyte offset =
    if ltb (max_of offset op.off) (min_of (offset + nbyte) (op.off + op.nbyte))
    then min_of (offset + nbyte) (op.off + op.nbyte) - offset
    else 0

-- The copy of the bytes that a write shares with the range.
read_common-some :
    (op : IoOp) (buf : ℕ → ℕ) (offset : ℕ) (iobuf : ℕ → ℕ) (from to : ℕ)
    → OpFits op
    → offset ≤ from
    → op.off ≤ from
    → from < to
    → to ≤ op.off + op.nbyte
    → read_common op buf offset iobuf (some (from, to - from))
      ≡ (to - offset, memcpy buf (from - offset) iobuf (op.bufoff + (from - op.off)) (to - from))
unfolding read_common
read_common-some op buf offset iobuf from to k a b c d =
    ap₂ (λ (x : ℕ) (y : ℕ → ℕ). (x, y))
      (ap (λ t. sub_word t offset) (add_word_lem from (to - from) (omega (arith, k.0)) ∙ sum)
        ∙ sub_word_lem to offset (omega arith) (omega (arith, k.0)))
      (ap₂ (λ x y. memcpy buf x iobuf y (to - from))
        (sub_word_lem from offset a (omega (arith, k.0)))
        (ap (add_word op.bufoff) (sub_word_lem from op.off b (omega (arith, k.0)))
          ∙ add_word_lem op.bufoff (from - op.off) (omega (arith, k.1))))
  where
    sum : from + (to - from) ≡ to
    sum = omega arith

module _ (op : IoOp) (buf : ℕ → ℕ) (nbyte offset : ℕ) (iobuf : ℕ → ℕ) (h : Fits offset nbyte)
    (k : OpFits op) where
  read_common_lem :
      ioop_read op buf nbyte offset iobuf
      ≡ read_common op buf offset iobuf (common_range offset nbyte op.off op.nbyte)
  unfolding ioop_read
  read_common_lem =
      ap (read_common op buf offset iobuf) (rangeisect_lem offset nbyte op.off op.nbyte h k.0)

  abbrev from : ℕ
  from = max_of offset op.off

  abbrev to : ℕ
  to = min_of (offset + nbyte) (op.off + op.nbyte)

  -- The answer and the buffer, on numbers without a bound.
  abbrev plain_read : ℕ × (ℕ → ℕ)
  plain_read =
      if ltb from to
      then (to - offset, memcpy buf (from - offset) iobuf (op.bufoff + (from - op.off)) (to - from))
      else (0, buf)

  ioop_read_lem : ioop_read op buf nbyte offset iobuf ≡ plain_read
  unfolding read_common
  ioop_read_lem = read_common_lem ∙ elim (Bool-cases (ltb from to)) [
    | inl some_bytes ↦
        ap (read_common op buf offset iobuf) (if_true (ltb from to) _ _ some_bytes)
        ∙ read_common-some op buf offset iobuf from to k (ground arith) (ground arith)
            (ground arith) (ground arith)
        ∙ sym (if_true (ltb from to) _ _ some_bytes)
    | inr no_bytes ↦
        ap (read_common op buf offset iobuf) (if_false (ltb from to) _ _ no_bytes)
        ∙ sym (if_false (ltb from to) _ _ no_bytes)
  ]

  pub ioop_read-length : (ioop_read op buf nbyte offset iobuf).0 ≡ reach op nbyte offset
  ioop_read-length = ap (λ (r : ℕ × (ℕ → ℕ)). r.0) ioop_read_lem ∙ ground arith

  pub ioop_read-byte :
      (f : ℕ → ℕ) (i : ℕ)
      → i < nbyte
      → buf i ≡ f (offset + i)
      → (ioop_read op buf nbyte offset iobuf).1 i ≡ overlay op iobuf f (offset + i)
  unfolding memcpy
  ioop_read-byte f i l same =
      ap (λ (r : ℕ × (ℕ → ℕ)). r.1 i) ioop_read_lem
      ∙ elim (Bool-cases (leb op.off (offset + i) && ltb (offset + i) (op.off + op.nbyte))) [
        | inl covered ↦
            ap (λ (r : ℕ × (ℕ → ℕ)). r.1 i) (if_true (ltb from to) _ _ (ground arith))
            ∙ if_true (leb (from - offset) i && ltb i (from - offset + (to - from))) _ _
                (ground arith)
            ∙ ap iobuf (ground arith)
            ∙ sym (
                if_true (leb op.off (offset + i) && ltb (offset + i) (op.off + op.nbyte)) _ _
                  covered)
        | inr bare ↦ ground (arith, same)
      ]

  pub ioop_read-outside : (i : ℕ) → nbyte ≤ i → (ioop_read op buf nbyte offset iobuf).1 i ≡ buf i
  unfolding memcpy
  ioop_read-outside i l = ap (λ (r : ℕ × (ℕ → ℕ)). r.1 i) ioop_read_lem ∙ ground arith

abbrev reach_all : ℕ → List IoOp → ℕ → ℕ → ℕ
reach_all len [] nbyte offset = len
reach_all len (op ∷ ops) nbyte offset =
    reach_all (max_of len (reach op nbyte offset)) ops nbyte offset

pub llmax_lem : (a b : ℕ) → a < 2 ^ 63 → b < 2 ^ 63 → llmax a b ≡ max_of a b
unfolding llmax
llmax_lem a b h k = rw (less_signed_lem b a k h) (ground arith)

reach_all-max :
    (a b : ℕ) (ops : List IoOp) (nbyte offset : ℕ)
    → max_of a (reach_all b ops nbyte offset) ≡ reach_all (max_of a b) ops nbyte offset
reach_all-max a b [] nbyte offset = refl
reach_all-max a b (op ∷ ops) nbyte offset =
    reach_all-max a (max_of b (reach op nbyte offset)) ops nbyte offset
    ∙ ap (λ t. reach_all t ops nbyte offset) (ground arith)

-- With no gap between the writes, they reach as far as the file that they make.
reach_all-NoGap :
    (ops : List IoOp) (size nbyte offset : ℕ)
    → NoGap ops size
    → reach_all (min_of nbyte (size - offset)) ops nbyte offset
      ≡ min_of nbyte (grown_size ops size - offset)
reach_all-NoGap [] size nbyte offset n = refl
reach_all-NoGap (op ∷ ops) size nbyte offset (le, n) =
    ap (λ t. reach_all t ops nbyte offset) (ground arith)
    ∙ reach_all-NoGap ops (max_of size (op.off + op.nbyte)) nbyte offset n

module _ (nbyte offset : ℕ) (iobuf : ℕ → ℕ) (h : Fits offset nbyte) where
  read_from-byte :
      (ops : List IoOp) (len : ℕ) (buf f : ℕ → ℕ) (i : ℕ)
      → AllFit ops
      → i < nbyte
      → buf i ≡ f (offset + i)
      → (read_from len ops buf nbyte offset iobuf).1 i ≡ overlay_all ops iobuf f (offset + i)
  unfolding read_from
  read_from-byte [] len buf f i k l same = same
  read_from-byte (op ∷ ops) len buf f i (k, ks) l same =
      read_from-byte ops _ _ (overlay op iobuf f) i ks l
        (ioop_read-byte op buf nbyte offset iobuf h k f i l same)

  read_from-outside :
      (ops : List IoOp) (len : ℕ) (buf : ℕ → ℕ) (i : ℕ)
      → AllFit ops
      → nbyte ≤ i
      → (read_from len ops buf nbyte offset iobuf).1 i ≡ buf i
  unfolding read_from
  read_from-outside [] len buf i k l = refl
  read_from-outside (op ∷ ops) len buf i (k, ks) l =
      read_from-outside ops _ _ i ks l ∙ ioop_read-outside op buf nbyte offset iobuf h k i l

  read_from-length :
      (ops : List IoOp) (len : ℕ) (buf : ℕ → ℕ)
      → AllFit ops
      → len < 2 ^ 63
      → (read_from len ops buf nbyte offset iobuf).0 ≡ reach_all len ops nbyte offset
  unfolding read_from
  read_from-length [] len buf k l = refl
  read_from-length (op ∷ ops) len buf (k, ks) l =
      let r = ioop_read-length op buf nbyte offset iobuf h k in
      let m = ap (llmax len) r ∙ llmax_lem len (reach op nbyte offset) l (ground arith) in
      let next = (ioop_read op buf nbyte offset iobuf).1 in
      ap (λ t. (read_from t ops next nbyte offset iobuf).0) m
      ∙ read_from-length ops (max_of len (reach op nbyte offset)) next ks (ground arith)

  reach_all_lt :
      (ops : List IoOp) (len : ℕ) → len < 2 ^ 63 → reach_all len ops nbyte offset < 2 ^ 63
  reach_all_lt [] len l = l
  reach_all_lt (op ∷ ops) len l =
      reach_all_lt ops (max_of len (reach op nbyte offset)) (ground arith)

  -- To read from the pending writes lays them over the range of the buffer, the latest one on top, and
  -- changes nothing behind the range. The hypotheses: the range and the writes with their places in the
  -- write buffer stay below 2 ^ 63, and the buffer has at the range's byte the byte of the file `f`.
  pub iooptab_read_lem :
      (ops : List IoOp) (buf f : ℕ → ℕ) (i : ℕ)
      → AllFit ops
      → buf i ≡ f (offset + i)
      → ((i < nbyte)
          × ((iooptab_read ops buf nbyte offset iobuf).1 i ≡ overlay_all ops iobuf f (offset + i)))
        ⊎ ((nbyte ≤ i) × ((iooptab_read ops buf nbyte offset iobuf).1 i ≡ buf i))
  unfolding iooptab_read
  iooptab_read_lem ops buf f i k same = elim (Bool-cases (ltb i nbyte)) [
    | inl inside ↦ inl (ground arith, read_from-byte ops 0 buf f i k (ground arith) same)
    | inr behind ↦ inr (ground arith, read_from-outside ops 0 buf i k (ground arith))
  ]

  -- The length of a read from a file of which `size` bytes are there, with the pending writes over it.
  pub iooptab_read-length :
      (ops : List IoOp) (buf : ℕ → ℕ) (size : ℕ)
      → AllFit ops
      → NoGap ops size
      → llmax (min_of nbyte (size - offset)) (iooptab_read ops buf nbyte offset iobuf).0
        ≡ min_of nbyte (grown_size ops size - offset)
  unfolding iooptab_read
  iooptab_read-length ops buf size k n =
      let start : min_of nbyte (size - offset) < 2 ^ 63 = ground arith in
      ap (llmax (min_of nbyte (size - offset))) (read_from-length ops 0 buf k (omega arith))
      ∙ llmax_lem (min_of nbyte (size - offset)) (reach_all 0 ops nbyte offset) start
          (reach_all_lt ops 0 (omega arith))
      ∙ reach_all-max (min_of nbyte (size - offset)) 0 ops nbyte offset
      ∙ ap (λ t. reach_all t ops nbyte offset) (ground arith)
      ∙ reach_all-NoGap ops size nbyte offset n
