-- ===== src/Fildes/Steps.antt =====
-- modules/libc/src/fildes/regfile_tx.c: one call of a transaction next to that on a plain file.
use picotm.Prelude.{
  ℕ, suc, ◌+◌, ◌-◌, ◌^◌, ◌≤◌, ◌<◌, ◌≡◌, ◌⊎◌, inl, inr, refl, sym, ◌∙◌, ap, subst, arith, Bool, true,
  false, ◌&&◌, none, some, none-ne-some, some-injective, List, [], length, ltb, leb, if◌then◌else◌,
  ◌>>=◌, Bool-cases,
}
use picotm.Error.{Error, is_set}
use picotm.Rwlock.Wait.{Attempt}
use picotm.Fildes.Ranges.{Fits, max_of, min_of}
use picotm.Fildes.Seekbuf.{SysCalls}
use picotm.Fildes.Regfile.{Io}
use picotm.Fildes.Calls.{IsFile, written}
use picotm.Fildes.Pending.{IsPending}
use picotm.Fildes.Reads.{pread_exec_lem}
use picotm.Fildes.Accepted.{pwrite_exec_lem}
use picotm.Fildes.Commit.{cookies_from}
use picotm.Fildes.Session.{
  FileOp, read_at, write_at, Answer, has_read, has_written, nbytes, run_file_op, Agrees,
  exec_file_op, cookies_of,
}

module _ {S : Type 0} where
  abbrev pub pending_writes : Io S → ℕ
  pending_writes io = length io.tx.seekbuf_tx.wrtab.ops

-- After calls without an error: `before` the calls and `after` them, with their cookies.
pub record IsDone {S : Type 0} (content : S → ℕ → ℕ) (size : S → ℕ) (before after : Io S)
    (cookies : List ℕ) (f : ℕ → ℕ) (n : ℕ) (total : ℕ) : Type 0 where
  pub fine : is_set after.error ≡ false
  pub pending : IsPending after.tx.seekbuf_tx (content after.sys) (size after.sys) f n
  pub logged : cookies ≡ cookies_from (pending_writes before) (length cookies)
  pub counted : pending_writes after ≡ pending_writes before + length cookies
  pub used : after.tx.seekbuf_tx.wrbuflen ≤ before.tx.seekbuf_tx.wrbuflen + total

guarded :
    {A : Type 0} (b : Bool) (x y : A) → (if b then some x else none) ≡ some y → (b ≡ true) × (x ≡ y)
guarded true x y h = (refl, some-injective x y h)
guarded false x y h = absurd (none-ne-some y h)

pub at_zero : (k : ℕ) → k + 0 ≡ k
at_zero k = omega arith

pub none_more : (n : ℕ) → n ≡ 0 + n
none_more n = omega arith

pub one_up : (k m : ℕ) → k + suc m ≡ suc k + m
one_up k m = omega arith

pub one_out : (m n : ℕ) → suc (m + n) ≡ suc m + n
one_out m n = omega arith

one_more : (k : ℕ) → suc k ≡ k + 1
one_more k = omega arith

module _ {S : Type 0} (os : SysCalls S) (content : S → ℕ → ℕ) (size : S → ℕ)
    (file : IsFile os content size) (lock : ℕ) (wait : Attempt → Attempt) (resize : Error → Error)
    (lock_region : Bool → ℕ → ℕ → Error → Error) (fuel : ℕ) where
  -- One call: an error, or the answer of the plain file.
  abbrev Steps : FileOp → Io S → Answer → (ℕ → ℕ) → ℕ → Type 0
  Steps op io plain f n =
      (q : Io S) × (answer : Answer) × (cookies : List ℕ) × (exec_file_op os lock wait resize
          lock_region fuel op io
        ≡ some (q, answer, cookies))
      × (q.sys ≡ io.sys)
      × ((is_set q.error ≡ true)
          ⊎ Agrees answer plain × IsDone content size io q cookies f n (nbytes op))

  step_read :
      (buf : ℕ → ℕ) (nbyte offset : ℕ) (io : Io S) (f : ℕ → ℕ) (n : ℕ)
      → IsPending io.tx.seekbuf_tx (content io.sys) (size io.sys) f n
      → Fits offset nbyte
      → nbyte < fuel
      → Steps
          (read_at buf nbyte offset)
          io
          (has_read (min_of nbyte (n - offset)) (λ i. f (offset + i)))
          f
          n
  step_read buf nbyte offset io f n p h enough =
      let (e, len, b, r, cases) =
        pread_exec_lem os content size file lock wait resize lock_region fuel buf nbyte offset io f
          n p h enough in
      (
        record io { error = e },
        has_read len b,
        [],
        ap (λ o. o >>= λ r. some (r.0, has_read r.1 r.2, [])) r,
        refl,
        elim cases [
          | inl bad ↦ inl bad
          | inr answered ↦ elim (Bool-cases (is_set e)) [
            | inl bad ↦ inl bad
            | inr fine ↦ inr (
              answered,
              record {
                fine = fine;
                pending = p;
                logged = refl;
                counted = omega arith;
                used = omega arith;
              },
            )
          ]
        ],
      )

  step_write :
      (bytes : ℕ → ℕ) (nbyte offset : ℕ) (io : Io S) (f : ℕ → ℕ) (n : ℕ)
      → IsPending io.tx.seekbuf_tx (content io.sys) (size io.sys) f n
      → Fits offset nbyte
      → Fits io.tx.seekbuf_tx.wrbuflen nbyte
      → offset ≤ n
      → Steps
          (write_at bytes nbyte offset)
          io
          (has_written nbyte)
          (written bytes nbyte offset f)
          (max_of n (offset + nbyte))
  step_write bytes nbyte offset io f n p h k le =
      let (q, answer, cookie, r, same, cases) =
        pwrite_exec_lem os content size lock wait resize lock_region fuel bytes nbyte offset false
          io f n p h k le in
      (
        q,
        has_written answer,
        cookies_of cookie,
        ap (λ o. o >>= λ r. some (r.0, has_written r.1, cookies_of r.2)) r,
        same,
        elim cases [
          | inl bad ↦ inl bad
          | inr (fine, accepted) ↦ inr (
            accepted.whole,
            record {
              fine = fine;
              pending =
                  subst
                    (λ s.
                      IsPending q.tx.seekbuf_tx (content s) (size s) (written bytes nbyte offset f)
                        (max_of n (offset + nbyte)))
                    (sym same) accepted.pending;
              logged =
                  ap cookies_of accepted.index
                  ∙ ap (cookies_from (pending_writes io))
                      (sym (ap (λ c. length (cookies_of c)) accepted.index));
              counted =
                  accepted.counted
                  ∙ one_more (pending_writes io)
                  ∙ ap (λ c. pending_writes io + length (cookies_of c)) (sym accepted.index);
              used = omega (arith, accepted.used);
            },
          )
        ],
      )

  pub step :
      (op : FileOp) (io : Io S) (f : ℕ → ℕ) (n : ℕ) (plain : Answer) (g : ℕ → ℕ) (m : ℕ)
      → run_file_op op f n ≡ some (plain, g, m)
      → IsPending io.tx.seekbuf_tx (content io.sys) (size io.sys) f n
      → nbytes op < fuel
      → Fits io.tx.seekbuf_tx.wrbuflen (nbytes op)
      → Steps op io plain g m
  step (read_at buf nbyte offset) io f n plain g m h p enough fits =
      let (in_range, e) = guarded (ltb (offset + nbyte) (2 ^ 63)) _ (plain, g, m) h in
      subst (λ (r : Answer × (ℕ → ℕ) × ℕ). Steps (read_at buf nbyte offset) io r.0 r.1 r.2) e
        (step_read buf nbyte offset io f n p (ground arith) enough)
  step (write_at bytes nbyte offset) io f n plain g m h p enough fits =
      let (in_range, e) =
        guarded (ltb (offset + nbyte) (2 ^ 63) && leb offset n) _ (plain, g, m) h in
      subst (λ (r : Answer × (ℕ → ℕ) × ℕ). Steps (write_at bytes nbyte offset) io r.0 r.1 r.2) e
        (step_write bytes nbyte offset io f n p (ground arith) fits (ground arith))
