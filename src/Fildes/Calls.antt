-- ===== src/Fildes/Calls.antt =====
-- modules/libc/src/fildes/regfile_tx.c: the loops of system calls, on a file that works.
use picotm.Prelude.{
  ℕ, zero, suc, ◌+◌, ◌-◌, ◌≤◌, ◌<◌, ◌≡◌, ◌⊎◌, inl, inr, refl, sym, ◌∙◌, ap, subst, arith, ◌&&◌,
  Option, some, ◌==◌, ltb, leb, if◌then◌else◌, Bool-cases, if_true, if_false,
}
use picotm.Error.{Error}
use picotm.Fildes.{memcpy}
use picotm.Fildes.Ranges.{max_of, min_of}
use picotm.Fildes.Seekbuf.{SysCalls, done}
use picotm.Fildes.Regfile.{pread_from, do_pread, pread_round, pwrite_from, do_pwrite, pwrite_round}

-- The file `f` with `n` bytes from `off` on.
abbrev pub written : (ℕ → ℕ) → ℕ → ℕ → (ℕ → ℕ) → ℕ → ℕ
written d n off f a = if leb off a && ltb a (off + n) then d (a - off) else f a

-- The size of a file after a write, which counts only if it has a byte.
abbrev pub written_size : ℕ → ℕ → ℕ → ℕ
written_size n off size = if n == 0 then size else max_of size (off + n)

-- What POSIX says of pread() and pwrite() on a regular file, when they do not fail: a read answers some of
-- the bytes of the range that are there, and none of them only at the end of the file; a write stores some
-- of the bytes and extends the file to them. A file reads as 0 behind its end.
pub record IsFile {S : Type 0} (os : SysCalls S) (content : S → ℕ → ℕ) (size : S → ℕ) : Type 0 where
  pub pread_law :
      (n off : ℕ) (s : S)
      → (k : ℕ) × ((os.pread n off s).0 ≡ done k)
        × (k ≤ min_of n (size s - off))
        × ((min_of n (size s - off) ≡ 0) ⊎ (0 < k))
        × ((i : ℕ) → i < k → (os.pread n off s).1 i ≡ content s (off + i))
  pub pwrite_law :
      (d : ℕ → ℕ) (n off : ℕ) (s : S)
      → 0 < n
      → (k : ℕ) × (t : S) × (os.pwrite d n off s ≡ (done k, t))
        × (0 < k)
        × (k ≤ n)
        × ((a : ℕ) → content t a ≡ written d k off (content s) a)
        × (size t ≡ max_of (size s) (off + k))

module _ {S : Type 0} (os : SysCalls S) (content : S → ℕ → ℕ) (size : S → ℕ)
    (file : IsFile os content size) (nbyte offset : ℕ) where
  module _ (s : S) (error : Error) where
    abbrev there : ℕ
    there = min_of nbyte (size s - offset)

    abbrev HasRead : (ℕ → ℕ) → ℕ → Type 0
    HasRead buf n = (i : ℕ) → i < n → buf i ≡ content s (offset + i)

    abbrev Reads : Option (ℕ × (ℕ → ℕ) × Error) → (ℕ → ℕ) → Type 0
    Reads o buf =
        (b : ℕ → ℕ) × (o ≡ some (there, b, error))
        × HasRead b there
        × ((i : ℕ) → there ≤ i → b i ≡ buf i)

    HasRead-memcpy :
        (pos k : ℕ) (buf bytes : ℕ → ℕ)
        → HasRead buf pos
        → ((i : ℕ) → i < k → bytes i ≡ content s (offset + pos + i))
        → HasRead (memcpy buf pos bytes 0 k) (pos + k)
    unfolding memcpy
    HasRead-memcpy pos k buf bytes has same i l = elim (Bool-cases (ltb i pos)) [
      | inl before ↦
          if_false (leb pos i && ltb i (pos + k)) _ _ (ground arith) ∙ has i (ground arith)
      | inr here ↦
          if_true (leb pos i && ltb i (pos + k)) _ _ (ground arith)
          ∙ ap bytes zero_more
          ∙ same (i - pos) (ground arith)
          ∙ ap (content s) (ground arith)
    ]
      where
        zero_more : 0 + (i - pos) ≡ i - pos
        zero_more = omega arith

    memcpy-behind :
        (buf : ℕ → ℕ) (pos : ℕ) (bytes : ℕ → ℕ) (k i : ℕ)
        → pos + k ≤ i
        → memcpy buf pos bytes 0 k i ≡ buf i
    unfolding memcpy
    memcpy-behind buf pos bytes k i l = ground arith

    pread_from_lem :
        (fuel pos : ℕ) (buf : ℕ → ℕ)
        → nbyte < fuel + pos
        → pos ≤ there
        → HasRead buf pos
        → Reads (pread_from os fuel pos buf nbyte offset s error) buf
    unfolding pread_from pread_round
    pread_from_lem zero pos buf enough le has = absurd (ground arith)
    pread_from_lem (suc fuel) pos buf enough le has = elim (Bool-cases (ltb pos nbyte)) [
      | inr full ↦ (
        buf,
        if_false (ltb pos nbyte) _ _ full ∙ ap (λ t. some (t, buf, error)) (ground arith),
        λ i l. has i (ground arith),
        λ i l. refl,
      )
      | inl more ↦
          let (k, e, le2, some_or_end, same) = file.pread_law (nbyte - pos) (offset + pos) s in
          let read = os.pread (nbyte - pos) (offset + pos) s in
          let rest = λ (p : ℕ) (b : ℕ → ℕ). pread_from os fuel p b nbyte offset s error in
          let start =
            if_true (ltb pos nbyte) (pread_round os rest pos buf error read) _ more
            ∙ ap (λ r. pread_round os rest pos buf error (r, read.1)) e in
          elim (Bool-cases (k == 0)) [
            | inl nothing ↦ (
              buf,
              start ∙ if_true (k == 0) _ _ nothing ∙ ap (λ t. some (t, buf, error)) (ground arith),
              λ i l. has i (ground arith),
              λ i l. refl,
            )
            | inr something ↦
                let next = memcpy buf pos read.1 0 k in
                let (b, e2, has2, kept) =
                  pread_from_lem fuel (pos + k) next (ground arith) (ground arith)
                    (λ i l. HasRead-memcpy pos k buf read.1 has same i l) in
                (
                  b,
                  start ∙ if_false (k == 0) _ _ something ∙ e2,
                  has2,
                  λ i l. kept i l ∙ memcpy-behind buf pos read.1 k i (ground arith),
                )
          ]
    ]

    -- With fuel for its bytes, the loop of a read ends with all the bytes of the range that are there.
    pub do_pread_lem :
        (fuel : ℕ) (buf : ℕ → ℕ)
        → nbyte < fuel
        → Reads (do_pread os fuel buf nbyte offset s error) buf
    unfolding do_pread
    do_pread_lem fuel buf enough =
        pread_from_lem fuel 0 buf (omega arith) (ground arith) (λ i l. absurd (omega arith))

  -- What the loop of a write has done after `pos` bytes.
  abbrev HasWritten : (ℕ → ℕ) → ℕ → S → S → Type 0
  HasWritten d n s t =
      ((a : ℕ) → content t a ≡ written d n offset (content s) a)
      × (size t ≡ written_size n offset (size s))

  pwrite_from_lem :
      (d : ℕ → ℕ) (s : S) (error : Error) (fuel pos : ℕ) (t : S)
      → nbyte < fuel + pos
      → pos ≤ nbyte
      → HasWritten d pos s t
      → (u : S) × (pwrite_from os fuel pos d nbyte offset t error ≡ some (u, nbyte, error))
        × HasWritten d nbyte s u
  unfolding pwrite_from pwrite_round
  pwrite_from_lem d s error zero pos t enough le has = absurd (omega arith)
  pwrite_from_lem d s error (suc fuel) pos t enough le has = elim (Bool-cases (ltb pos nbyte)) [
    | inr full ↦
        let e : pos ≡ nbyte = ground arith in
        (
          t,
          if_false (ltb pos nbyte) _ _ full ∙ ap (λ p. some (t, p, error)) e,
          subst (λ p. HasWritten d p s t) e has,
        )
    | inl more ↦
        let (k, u, e, pos_k, le2, bytes, sizes) =
          file.pwrite_law (λ i. d (pos + i)) (nbyte - pos) (offset + pos) t (ground arith) in
        let rest = λ (p : ℕ) (v : S). pwrite_from os fuel p d nbyte offset v error in
        let (v, e2, has2) =
          pwrite_from_lem d s error fuel (pos + k) u (omega arith) (omega arith)
            (HasWritten-more d s pos k t u pos_k bytes sizes has) in
        (
          v,
          if_true (ltb pos nbyte)
                (pwrite_round os rest pos error
                  (os.pwrite (λ i. d (pos + i)) (nbyte - pos) (offset + pos) t))
                _ more
              ∙ ap (pwrite_round os rest pos error) e
              ∙ e2,
          has2,
        )
  ]
    where
      HasWritten-more :
          (d : ℕ → ℕ) (s : S) (pos k : ℕ) (t u : S)
          → 0 < k
          → ((a : ℕ) → content u a ≡ written (λ i. d (pos + i)) k (offset + pos) (content t) a)
          → (size u ≡ max_of (size t) (offset + pos + k))
          → HasWritten d pos s t
          → HasWritten d (pos + k) s u
      HasWritten-more d s pos k t u pos_k bytes sizes has = (
        λ a. bytes a ∙ elim (Bool-cases (leb (offset + pos) a && ltb a (offset + pos + k))) [
          | inl here ↦
              if_true (leb (offset + pos) a && ltb a (offset + pos + k)) _ _ here
              ∙ ap d (ground arith)
              ∙ sym (if_true (leb offset a && ltb a (offset + (pos + k))) _ _ (ground arith))
          | inr elsewhere ↦
              if_false (leb (offset + pos) a && ltb a (offset + pos + k)) _ _ elsewhere
              ∙ has.0 a
              ∙ ground arith
        ],
        sizes ∙ ground (arith, has.1),
      )

  -- With fuel for its bytes, the loop of a write ends with the whole range written.
  pub do_pwrite_lem :
      (d : ℕ → ℕ) (s : S) (error : Error) (fuel : ℕ)
      → nbyte < fuel
      → (t : S) × (do_pwrite os fuel d nbyte offset s error ≡ some (t, nbyte, error))
        × HasWritten d nbyte s t
  unfolding do_pwrite
  do_pwrite_lem d s error fuel enough =
      pwrite_from_lem d s error fuel 0 s (omega arith) (omega arith) (λ a. ground arith, refl)
