-- ===== src/Fildes/Accepted.antt =====
-- modules/libc/src/fildes/regfile_tx.c: the execution of a write that waits for the commit.
use picotm.Prelude.{
  ℕ, suc, ◌+◌, ◌≤◌, ◌≡◌, ◌⊎◌, inl, inr, refl, sym, ap, subst, Bool, true, false, Option, none, some,
  List, [], ◌∷◌, ◌++◌, length, Bool-cases,
}
use picotm.Error.{Error, is_set}
use picotm.Rwlock.Wait.{Attempt}
use picotm.Rwlock.State.{Rwstate}
use picotm.Fildes.Ranges.{Fits, max_of}
use picotm.Fildes.Seekbuf.{SysCalls, SeekbufTx, ssize_error}
use picotm.Fildes.Regfile.{Io, with_seekbuf, pwrite_exec}
use picotm.Fildes.Calls.{written}
use picotm.Fildes.Pending.{IsPending, memcpy-IsPending}
use picotm.Fildes.Writes.{resized, appended, update_file_size_lem, append_to_writeset_lem}

-- A write of `nbyte` bytes that waits for the commit, where the write set stood for the file `f` of `n` bytes.
pub record IsAccepted (before after : SeekbufTx) (answer : ℕ) (cookie : Option ℕ) (content : ℕ → ℕ)
    (size : ℕ) (f : ℕ → ℕ) (n : ℕ) (bytes : ℕ → ℕ) (nbyte offset : ℕ) : Type 0 where
  pub whole : answer ≡ nbyte
  pub index : cookie ≡ some (length before.wrtab.ops)
  pub used : after.wrbuflen ≡ before.wrbuflen + nbyte
  pub counted : length after.wrtab.ops ≡ suc (length before.wrtab.ops)
  pub pending :
      IsPending after content size (written bytes nbyte offset f) (max_of n (offset + nbyte))

pub length-snoc : {A : Type 0} (xs : List A) (x : A) → length (xs ++ x ∷ []) ≡ suc (length xs)
length-snoc [] x = refl
length-snoc (y ∷ xs) x = ap suc (length-snoc xs x)

appended-IsAccepted :
    (b : SeekbufTx) (bytes : ℕ → ℕ) (nbyte offset room file_size : ℕ) (st : Rwstate) (answer : ℕ)
    (cookie : Option ℕ) (content : ℕ → ℕ) (size : ℕ) (f : ℕ → ℕ) (n : ℕ)
    → IsPending b content size f n
    → Fits offset nbyte
    → Fits b.wrbuflen nbyte
    → offset ≤ n
    → answer ≡ nbyte
    → cookie ≡ some (length b.wrtab.ops)
    → IsAccepted b
        (resized (appended b bytes nbyte offset room) file_size st)
        answer
        cookie
        content
        size
        f
        n
        bytes
        nbyte
        offset
unfolding appended
appended-IsAccepted b bytes nbyte offset room file_size st answer cookie content size f n p h k le
      whole index =
    let q = memcpy-IsPending b bytes nbyte offset room content size f n p h k le in
    record {
      whole = whole;
      index = index;
      used = refl;
      counted =
          length-snoc b.wrtab.ops (record { off = offset; nbyte = nbyte; bufoff = b.wrbuflen });
      pending = record {
        waits = q.waits;
        fits = q.fits;
        no_gap = q.no_gap;
        stored = q.stored;
        same_bytes = q.same_bytes;
        same_size = q.same_size;
      };
    }

module _ {S : Type 0} (os : SysCalls S) (content : S → ℕ → ℕ) (size : S → ℕ) (lock : ℕ)
    (wait : Attempt → Attempt) (resize : Error → Error) (lock_region : Bool → ℕ → ℕ → Error → Error)
    (fuel : ℕ) where
  -- A write with write-back comes back with an error, or with its length and the index of its event, and
  -- the write set then stands for the file with the write. The file of the system does not change either
  -- way. The hypotheses: the write set stood for the file `f` of `n` bytes, the range and the buffer stay
  -- below 2 ^ 63, and the write begins within the file or at its end.
  pub pwrite_exec_lem :
      (bytes : ℕ → ℕ) (nbyte offset : ℕ) (isnoundo : Bool) (io : Io S) (f : ℕ → ℕ) (n : ℕ)
      → IsPending io.tx.seekbuf_tx (content io.sys) (size io.sys) f n
      → Fits offset nbyte
      → Fits io.tx.seekbuf_tx.wrbuflen nbyte
      → offset ≤ n
      → (after : Io S) × (answer : ℕ) × (cookie : Option ℕ) × (pwrite_exec os lock wait resize
            lock_region fuel bytes nbyte offset isnoundo io
          ≡ some (after, answer, cookie))
        × (after.sys ≡ io.sys)
        × ((is_set after.error ≡ true)
            ⊎ (is_set after.error ≡ false)
              × IsAccepted io.tx.seekbuf_tx after.tx.seekbuf_tx answer cookie
                  (content io.sys)
                  (size io.sys)
                  f
                  n
                  bytes
                  nbyte
                  offset)
  unfolding pwrite_exec
  pwrite_exec_lem bytes nbyte offset isnoundo io f n p h k le =
      let b = io.tx.seekbuf_tx in
      let locked = lock_region true nbyte offset io.error in
      elim (Bool-cases (is_set locked)) [
        | inl bad ↦
            (record io { error = locked }, ssize_error, none, rw (p.waits, bad) refl, refl, inl bad)
        | inr fine ↦
            let (b2, index, e, h2, cases) =
              append_to_writeset_lem resize b nbyte offset bytes locked fine k in
            elim cases [
              | inl bad ↦ (
                with_seekbuf os lock wait resize lock_region io b2 e,
                ssize_error,
                index,
                rw (p.waits, fine, h2, bad) refl,
                refl,
                inl bad,
              )
              | inr (fine2, room, same, at) ↦
                  let (fs, st, e2, answer, h3, whole) =
                    update_file_size_lem os lock wait resize lock_region nbyte offset index
                      (with_seekbuf os lock wait resize lock_region io b2 e) in
                  (
                    with_seekbuf os lock wait resize lock_region io (resized b2 fs st) e2,
                    answer,
                    index,
                    rw (p.waits, fine, h2, fine2) h3,
                    refl,
                    elim whole [
                      | inl bad ↦ inl bad
                      | inr w ↦ elim (Bool-cases (is_set e2)) [
                        | inl bad ↦ inl bad
                        | inr fine3 ↦ inr (
                          fine3,
                          subst
                              (λ x.
                                IsAccepted b (resized x fs st) answer index (content io.sys)
                                  (size io.sys) f n bytes nbyte offset)
                              (sym same)
                              (appended-IsAccepted b bytes nbyte offset room fs st answer index
                                (content io.sys) (size io.sys) f n p h k le w at),
                        )
                      ]
                    ],
                  )
            ]
      ]
