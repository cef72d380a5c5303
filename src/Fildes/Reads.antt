-- ===== src/Fildes/Reads.antt =====
-- modules/libc/src/fildes/regfile_tx.c: a read of a file with pending writes.
use picotm.Prelude.{
  ℕ, ◌+◌, ◌-◌, ◌<◌, ◌≡◌, ◌⊎◌, inl, inr, refl, sym, ◌∙◌, ap, subst, arith, Bool, true, false, some,
  ltb, if◌then◌else◌, Bool-cases, if_true, if_false,
}
use picotm.Error.{Error, is_set}
use picotm.Rwlock.Wait.{Attempt}
use picotm.Fildes.{iooptab_read, llmax}
use picotm.Fildes.Ranges.{Fits, min_of}
use picotm.Fildes.Overlay.{iooptab_read_lem, iooptab_read-length}
use picotm.Fildes.Seekbuf.{SysCalls, ssize_error}
use picotm.Fildes.Regfile.{Io, pread_exec}
use picotm.Fildes.Calls.{IsFile, do_pread_lem}
use picotm.Fildes.Pending.{IsPending, overlay_all-NoGap}

module _ {S : Type 0} (os : SysCalls S) (content : S → ℕ → ℕ) (size : S → ℕ)
    (file : IsFile os content size) where
  -- The bytes of a read with the pending writes over them.
  laid_over :
      (io : Io S) (f : ℕ → ℕ) (n nbyte offset i : ℕ) (buf : ℕ → ℕ)
      → IsPending io.tx.seekbuf_tx (content io.sys) (size io.sys) f n
      → Fits offset nbyte
      → ((j : ℕ) → j < min_of nbyte (size io.sys - offset) → buf j ≡ content io.sys (offset + j))
      → i < min_of nbyte (n - offset)
      → (iooptab_read io.tx.seekbuf_tx.wrtab.ops buf nbyte offset io.tx.seekbuf_tx.wrbuf).1 i
        ≡ f (offset + i)
  laid_over io f n nbyte offset i buf p h has l =
      let ops = io.tx.seekbuf_tx.wrtab.ops in
      let wrbuf = io.tx.seekbuf_tx.wrbuf in
      let base = λ (a : ℕ). if ltb a (size io.sys) then content io.sys a else buf (a - offset) in
      elim (iooptab_read_lem nbyte offset wrbuf h ops buf base i p.fits (starts base (λ a. refl))) [
        | inl (inside, e) ↦
            e
            ∙ overlay_all-NoGap ops wrbuf base (content io.sys) (size io.sys) (offset + i) p.no_gap
                (λ m. if_true (ltb (offset + i) (size io.sys)) _ _ (ground arith))
                (ground (arith, p.same_size))
            ∙ p.same_bytes (offset + i)
        | inr (behind, e) ↦ absurd (ground arith)
      ]
    where
      inside_range : i < nbyte
      inside_range = ground arith

      starts :
          (base : ℕ → ℕ)
          → ((a : ℕ)
              → base a ≡ (if ltb a (size io.sys) then content io.sys a else buf (a - offset)))
          → buf i ≡ base (offset + i)
      starts base e = elim (Bool-cases (ltb (offset + i) (size io.sys))) [
        | inl in_file ↦
            has i (ground (arith, inside_range))
            ∙ sym (if_true (ltb (offset + i) (size io.sys)) _ _ in_file)
            ∙ sym (e (offset + i))
        | inr behind ↦
            ap buf (omega arith)
            ∙ sym (if_false (ltb (offset + i) (size io.sys)) _ _ behind)
            ∙ sym (e (offset + i))
      ]

  -- A read of a file with pending writes comes back with an error, or with the length and the bytes that a
  -- read of the file would have that the writes make, and changes nothing but the error. The hypotheses:
  -- the system's file works as POSIX says, the write set stands for the file `f` of `n` bytes, the range
  -- stays below 2 ^ 63, and there is more fuel than bytes to read.
  pub pread_exec_lem :
      (lock : ℕ) (wait : Attempt → Attempt) (resize : Error → Error)
      (lock_region : Bool → ℕ → ℕ → Error → Error) (fuel : ℕ) (buf : ℕ → ℕ) (nbyte offset : ℕ)
      (io : Io S) (f : ℕ → ℕ) (n : ℕ)
      → IsPending io.tx.seekbuf_tx (content io.sys) (size io.sys) f n
      → Fits offset nbyte
      → nbyte < fuel
      → (e : Error) × (len : ℕ) × (b : ℕ → ℕ) × (pread_exec os lock wait resize lock_region fuel buf
            nbyte offset io
          ≡ some (record io { error = e }, len, b))
        × ((is_set e ≡ true)
            ⊎ ((len ≡ min_of nbyte (n - offset)) × ((i : ℕ) → i < len → b i ≡ f (offset + i))))
  unfolding pread_exec
  pread_exec_lem lock wait resize lock_region fuel buf nbyte offset io f n p h enough =
      let locked = lock_region false nbyte offset io.error in
      let ops = io.tx.seekbuf_tx.wrtab.ops in
      let wrbuf = io.tx.seekbuf_tx.wrbuf in
      elim (Bool-cases (is_set locked)) [
        | inl bad ↦ (locked, ssize_error, buf, rw bad refl, inl bad)
        | inr fine ↦
            let (b, e, has, kept) =
              do_pread_lem os content size file nbyte offset io.sys locked fuel buf enough in
            let read : ℕ × (ℕ → ℕ) = iooptab_read ops b nbyte offset wrbuf in
            let len =
              iooptab_read-length nbyte offset wrbuf h ops b (size io.sys) p.fits p.no_gap in
            let n_eq = ap (λ t. min_of nbyte (t - offset)) p.same_size in
            (
              locked,
              llmax (min_of nbyte (size io.sys - offset)) read.0,
              read.1,
              rw (fine, e, fine) refl,
              inr (
                len ∙ n_eq,
                λ i l.
                    laid_over io f n nbyte offset i b p h has (subst (λ t. i < t) (len ∙ n_eq) l),
              ),
            )
      ]
