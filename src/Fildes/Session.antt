-- ===== src/Fildes/Session.antt =====
-- modules/libc/src/fildes/regfile_tx.c: a transaction of reads and writes at given offsets of a file, and
-- the same calls on a plain file.
use picotm.Prelude.{
  ℕ, ◌+◌, ◌-◌, ◌^◌, ◌<◌, ◌≡◌, Bool, true, false, ◌&&◌, Option, none, some, List, [], ◌∷◌, ◌++◌, ltb,
  leb, if◌then◌else◌, ◌>>=◌,
}
use picotm.Error.{Error, is_set}
use picotm.Rwlock.Wait.{Attempt}
use picotm.Fildes.Ranges.{max_of, min_of}
use picotm.Fildes.Seekbuf.{SysCalls}
use picotm.Fildes.Regfile.{Io, pread_exec, pwrite_exec}
use picotm.Fildes.Calls.{written}

-- A read into a buffer, and a write of bytes.
pub data FileOp : Type 0 where
  read_at : (buf : ℕ → ℕ) (nbyte : ℕ) (offset : ℕ) → FileOp
  write_at : (bytes : ℕ → ℕ) (nbyte : ℕ) (offset : ℕ) → FileOp

-- The length, and for a read the buffer.
pub data Answer : Type 0 where
  has_read : (len : ℕ) (buf : ℕ → ℕ) → Answer
  has_written : (len : ℕ) → Answer

abbrev pub nbytes : FileOp → ℕ
nbytes (read_at buf nbyte offset) = nbyte
nbytes (write_at bytes nbyte offset) = nbyte

abbrev pub all_nbytes : List FileOp → ℕ
all_nbytes [] = 0
all_nbytes (op ∷ ops) = nbytes op + all_nbytes ops

-- The plain file of `n` bytes. `none` is a call beyond the range of the offsets, or a write that begins
-- behind the end of the file.
abbrev pub run_file_op : FileOp → (ℕ → ℕ) → ℕ → Option (Answer × (ℕ → ℕ) × ℕ)
run_file_op (read_at buf nbyte offset) f n =
    if ltb (offset + nbyte) (2 ^ 63)
    then some (has_read (min_of nbyte (n - offset)) (λ i. f (offset + i)), f, n)
    else none
run_file_op (write_at bytes nbyte offset) f n =
    if ltb (offset + nbyte) (2 ^ 63) && leb offset n
    then some (has_written nbyte, written bytes nbyte offset f, max_of n (offset + nbyte))
    else none

abbrev pub run_file_ops : List FileOp → (ℕ → ℕ) → ℕ → Option (List Answer × (ℕ → ℕ) × ℕ)
run_file_ops [] f n = some ([], f, n)
run_file_ops (op ∷ ops) f n =
    run_file_op op f n >>= λ r. run_file_ops ops r.1 r.2 >>= λ rs. some (r.0 ∷ rs.0, rs.1, rs.2)

-- The same length, and the same bytes up to it.
abbrev pub Agrees : Answer → Answer → Type 0
Agrees (has_read len b) (has_read len2 b2) = (len ≡ len2) × ((i : ℕ) → i < len → b i ≡ b2 i)
Agrees (has_written len) (has_written len2) = len ≡ len2
Agrees (has_read len b) (has_written len2) = true ≡ false
Agrees (has_written len) (has_read len2 b2) = true ≡ false

abbrev pub AllAgree : List Answer → List Answer → Type 0
AllAgree [] [] = Unit {0}
AllAgree (a ∷ xs) (b ∷ ys) = Agrees a b × AllAgree xs ys
AllAgree [] (b ∷ ys) = true ≡ false
AllAgree (a ∷ xs) [] = true ≡ false

abbrev pub cookies_of : Option ℕ → List ℕ
cookies_of none = []
cookies_of (some cookie) = cookie ∷ []

module _ {S : Type 0} (os : SysCalls S) (lock : ℕ) (wait : Attempt → Attempt)
    (resize : Error → Error) (lock_region : Bool → ℕ → ℕ → Error → Error) (fuel : ℕ) where
  -- The answer with the cookies of the events that it appends to the log.
  abbrev pub exec_file_op : FileOp → Io S → Option (Io S × Answer × List ℕ)
  exec_file_op (read_at buf nbyte offset) io =
      pread_exec os lock wait resize lock_region fuel buf nbyte offset io >>= λ r.
      some (r.0, has_read r.1 r.2, [])
  exec_file_op (write_at bytes nbyte offset) io =
      pwrite_exec os lock wait resize lock_region fuel bytes nbyte offset false io >>= λ r.
      some (r.0, has_written r.1, cookies_of r.2)

  -- The calls of a transaction, up to the first error.
  abbrev pub exec_file_ops : List FileOp → Io S → Option (Io S × List Answer × List ℕ)
  exec_file_ops [] io = some (io, [], [])
  exec_file_ops (op ∷ ops) io = exec_file_op op io >>= λ r.
      if is_set r.0.error
      then some (r.0, r.1 ∷ [], r.2)
      else (exec_file_ops ops r.0 >>= λ rs. some (rs.0, r.1 ∷ rs.1, r.2 ++ rs.2))
