-- ===== src/Fildes/Seekbuf.antt =====
-- modules/libc/src/fildes/seekbuf_tx.c: the writes and reads of a transaction on a file that can seek.
--
-- The argument `lock_region` is the error after seekbuf_tx_try_rdlock_region() (`false`) or
-- seekbuf_tx_try_wrlock_region() (`true`) of a number of bytes at an offset. `lock` and `wait` are those of
-- Rwlock.Wait for the locks of the file's fields. A negative answer is a word above 2 ^ 63.
use picotm.Prelude.{
  ℕ, ◌+◌, ◌-◌, ◌/◌, Bool, true, false, not, Option, none, some, [], ◌==◌, if◌then◌else◌, ◌>>=◌,
}
use picotm.Error.{Error, is_set, set_errno}
use picotm.Rwlock.Wait.{Attempt}
use picotm.Rwlock.State.{Rwstate, is_unlocked, rwstate_try_rdlock, rwstate_try_wrlock}
use picotm.Fildes.{word_mod, add_word, memcpy, IoOpTab, iooptab_append}

-- What a system call answers: a number, or errno.
pub data SysResult : Type 0 where
  done : (count : ℕ) → SysResult
  broken : (errno : ℕ) → SysResult

-- The calls on one open file. `pread` gives the bytes that it reads, of which the first `count` are valid.
pub record SysCalls (S : Type 0) : Type 0 where
  pub pread : ℕ → ℕ → S → SysResult × (ℕ → ℕ)
  pub pwrite : (ℕ → ℕ) → ℕ → ℕ → S → SysResult × S
  pub fstat : S → SysResult
  pub lseek_cur : S → SysResult
  pub lseek_set : ℕ → S → SysResult × S

pub data WriteMode : Type 0 where
  write_back : WriteMode
  write_through : WriteMode

abbrev pub is_through : WriteMode → Bool
is_through write_back = false
is_through write_through = true

-- A field with the state of its lock.
pub record SeekbufTx : Type 0 where
  pub wrmode : WriteMode
  pub wrbuf : ℕ → ℕ
  pub wrbuflen : ℕ
  pub wrtab : IoOpTab
  pub rdtab : IoOpTab
  pub file_size : ℕ
  pub size_state : Rwstate

abbrev pub ssize_error : ℕ
ssize_error = word_mod - 1

-- The lock of a field, with the error of the caller.
unfoldable pub try_field : (Rwstate → Option Rwstate) → Rwstate → Error → Option (Rwstate × Error)
try_field try_lock st error =
    try_lock (record st { attempt = record (st.attempt) { error = error } }) >>= λ s.
    some (s, s.attempt.error)

unfoldable pub seekbuf_tx_prepare : SeekbufTx → SeekbufTx
seekbuf_tx_prepare self = record self {
  wrmode = write_back;
  file_size = 0;
  rdtab = record (self.rdtab) { ops = [] };
  wrtab = record (self.wrtab) { ops = [] };
  wrbuflen = 0;
}

module _ (resize : Error → Error) where
  -- The offset in the buffer, which is valid without an error.
  unfoldable pub append_to_iobuffer : SeekbufTx → ℕ → (ℕ → ℕ) → Error → SeekbufTx × ℕ × Error
  unfolding memcpy
  append_to_iobuffer self nbyte buf error =
      let resized = resize error in
      if nbyte == 0
      then (self, self.wrbuflen, error)
      else if is_set resized
      then (self, ssize_error, resized)
      else (
        record self {
          wrbuf = memcpy self.wrbuf self.wrbuflen buf 0 nbyte;
          wrbuflen = add_word self.wrbuflen nbyte;
        },
        self.wrbuflen,
        resized,
      )

  -- The answer is the index of the write, `none` for an error.
  unfoldable pub append_to_writeset :
      SeekbufTx → ℕ → ℕ → (ℕ → ℕ) → Error → SeekbufTx × Option ℕ × Error
  unfolding append_to_iobuffer iooptab_append
  append_to_writeset self nbyte offset buf error =
      let (buffered, bufoffset, e) = append_to_iobuffer self nbyte buf error in
      let (tab, index, e2) = iooptab_append resize buffered.wrtab nbyte offset bufoffset e in
      if is_set e then (buffered, none, e) else (record buffered { wrtab = tab }, index, e2)

  unfoldable pub append_to_readset : SeekbufTx → ℕ → ℕ → Error → SeekbufTx × Option ℕ × Error
  unfolding iooptab_append
  append_to_readset self nbyte offset error =
      let (tab, index, e) = iooptab_append resize self.rdtab nbyte offset 0 error in
      (record self { rdtab = tab }, index, e)

module _ {S : Type 0} (os : SysCalls S) (lock : ℕ) (wait : Attempt → Attempt) where
  abbrev pub sized : SeekbufTx → Error → SysResult → SeekbufTx × ℕ × Error
  sized self error (done count) = (record self { file_size = count }, count, error)
  sized self error (broken errno) = (self, ssize_error, set_errno error errno)

  unfoldable pub seekbuf_tx_get_file_size : S → SeekbufTx → Error → Option (SeekbufTx × ℕ × Error)
  unfolding try_field
  seekbuf_tx_get_file_size s self error =
      if not (is_unlocked self.size_state.status)
      then some (self, self.file_size, error)
      else (try_field (rwstate_try_rdlock lock wait) self.size_state error >>= λ r.
          let locked = record self { size_state = r.0 } in
          some (if is_set r.1 then (locked, ssize_error, r.1) else sized locked r.1 (os.fstat s)))

  unfoldable pub seekbuf_tx_set_file_size : SeekbufTx → ℕ → Error → Option (SeekbufTx × Error)
  unfolding try_field
  seekbuf_tx_set_file_size self size error =
      try_field (rwstate_try_wrlock lock wait) self.size_state error >>= λ r.
      let locked = record self { size_state = r.0 } in
      some (if is_set r.1 then (locked, r.1) else (record locked { file_size = size }, r.1))

-- seekbuf.c: the records that the lock of a region takes, on records of `recsize` bytes.
unfoldable pub recoffset : ℕ → ℕ → ℕ
recoffset recsize off = off / recsize

unfoldable pub reccount : ℕ → ℕ → ℕ
reccount recsize len = 1 + len / recsize
