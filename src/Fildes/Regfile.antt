-- ===== src/Fildes/Regfile.antt =====
-- modules/libc/src/fildes/regfile_tx.c: the transaction's operations on a regular file.
--
-- `os` has the system calls on the file. A loop of system calls takes fuel, and answers `none` when it runs
-- out. A read answers its length and the buffer, a write its length and the cookie of its event.
use picotm.Prelude.{
  ℕ, zero, suc, ◌+◌, ◌-◌, Bool, true, false, not, ◌&&◌, Option, none, some, get_elem?, ◌==◌, ltb,
  if◌then◌else◌, ◌>>=◌,
}
use picotm.Error.{Error, is_set, set_errno, set_revocable}
use picotm.Rwlock.Wait.{Attempt}
use picotm.Rwlock.State.{Rwstate, is_unlocked, rwstate_try_rdlock, rwstate_try_wrlock}
use picotm.Fildes.{add_word, less_signed, llmax, memcpy, iooptab_read}
use picotm.Fildes.Seekbuf.{
  SysResult, done, broken, SysCalls, is_through, SeekbufTx, ssize_error, try_field,
  append_to_writeset, append_to_readset, seekbuf_tx_get_file_size, seekbuf_tx_set_file_size,
}

pub record RegfileTx : Type 0 where
  pub seekbuf_tx : SeekbufTx
  pub offset : ℕ
  pub offset_state : Rwstate

-- The transaction and the system, with the error of the caller.
pub record Io (S : Type 0) : Type 0 where
  pub tx : RegfileTx
  pub sys : S
  pub error : Error

-- EAGAIN, which is EWOULDBLOCK too.
unfoldable pub errno_signals_blocking_io : ℕ → Bool
errno_signals_blocking_io errno_code = errno_code == 11

module _ {S : Type 0} (os : SysCalls S) where
  -- After a call that has failed: what has been read or written counts, and otherwise the error.
  unfoldable pub stopped : ℕ → Error → ℕ → ℕ × Error
  unfolding errno_signals_blocking_io
  stopped pos error errno =
      if not (pos == 0)
      then (pos, error)
      else if errno_signals_blocking_io errno
      then (ssize_error, error)
      else (ssize_error, set_errno error errno)

  -- One round of the loop, after its system call; `rest` is the loop.
  unfoldable pub pread_round :
      (ℕ → (ℕ → ℕ) → Option (ℕ × (ℕ → ℕ) × Error))
      → ℕ
      → (ℕ → ℕ)
      → Error
      → SysResult × (ℕ → ℕ)
      → Option (ℕ × (ℕ → ℕ) × Error)
  unfolding memcpy stopped
  pread_round rest pos buf error (broken errno, bytes) =
      let r = stopped pos error errno in some (r.0, buf, r.1)
  pread_round rest pos buf error (done count, bytes) =
      let more = rest (pos + count) (memcpy buf pos bytes 0 count) in
      if count == 0 then some (pos, buf, error) else more

  unfoldable pub pread_from : ℕ → ℕ → (ℕ → ℕ) → ℕ → ℕ → S → Error → Option (ℕ × (ℕ → ℕ) × Error)
  unfolding pread_round
  pread_from zero pos buf nbyte offset s error = none
  pread_from (suc fuel) pos buf nbyte offset s error =
      let round =
        pread_round (λ p b. pread_from fuel p b nbyte offset s error) pos buf error
          (os.pread (nbyte - pos) (offset + pos) s) in
      if ltb pos nbyte then round else some (pos, buf, error)

  unfoldable pub do_pread : ℕ → (ℕ → ℕ) → ℕ → ℕ → S → Error → Option (ℕ × (ℕ → ℕ) × Error)
  unfolding pread_from
  do_pread fuel buf nbyte offset s error = pread_from fuel 0 buf nbyte offset s error

  unfoldable pub pwrite_round :
      (ℕ → S → Option (S × ℕ × Error)) → ℕ → Error → SysResult × S → Option (S × ℕ × Error)
  unfolding stopped
  pwrite_round rest pos error (broken errno, s) =
      let r = stopped pos error errno in some (s, r.0, r.1)
  pwrite_round rest pos error (done count, s) = rest (pos + count) s

  unfoldable pub pwrite_from : ℕ → ℕ → (ℕ → ℕ) → ℕ → ℕ → S → Error → Option (S × ℕ × Error)
  unfolding pwrite_round
  pwrite_from zero pos bytes nbyte offset s error = none
  pwrite_from (suc fuel) pos bytes nbyte offset s error =
      let round =
        pwrite_round (λ p t. pwrite_from fuel p bytes nbyte offset t error) pos error
          (os.pwrite (λ i. bytes (pos + i)) (nbyte - pos) (offset + pos) s) in
      if ltb pos nbyte then round else some (s, pos, error)

  unfoldable pub do_pwrite : ℕ → (ℕ → ℕ) → ℕ → ℕ → S → Error → Option (S × ℕ × Error)
  unfolding pwrite_from
  do_pwrite fuel bytes nbyte offset s error = pwrite_from fuel 0 bytes nbyte offset s error

  abbrev pub sought : ℕ → Error → SysResult × S → S × ℕ × Error
  sought len error (done count, s) = (s, len, error)
  sought len error (broken errno, s) = (s, ssize_error, set_errno error errno)

  unfoldable pub do_pwrite_and_lseek : ℕ → (ℕ → ℕ) → ℕ → ℕ → S → Error → Option (S × ℕ × Error)
  unfolding do_pwrite
  do_pwrite_and_lseek fuel bytes nbyte offset s error =
      do_pwrite fuel bytes nbyte offset s error >>= λ w.
      some (if is_set w.2 then w else sought w.1 w.2 (os.lseek_set (add_word offset w.1) w.0))

  module _ (lock : ℕ) (wait : Attempt → Attempt) (resize : Error → Error)
      (lock_region : Bool → ℕ → ℕ → Error → Error) where
    abbrev pub with_seekbuf : Io S → SeekbufTx → Error → Io S
    with_seekbuf self b e = record self { tx = record (self.tx) { seekbuf_tx = b }; error = e }

    abbrev pub with_io_error : Io S → Error → Io S
    with_io_error self e = record self { error = e }

    abbrev offset_read : Io S → SysResult → Io S × ℕ
    offset_read self (done count) =
        (record self { tx = record (self.tx) { offset = count } }, count)
    offset_read self (broken errno) = (with_io_error self (set_errno self.error errno), ssize_error)

    unfoldable pub regfile_tx_get_file_offset : Io S → Option (Io S × ℕ)
    unfolding try_field
    regfile_tx_get_file_offset self =
        if not (is_unlocked self.tx.offset_state.status)
        then some (self, self.tx.offset)
        else (try_field (rwstate_try_rdlock lock wait) self.tx.offset_state self.error >>= λ r.
            let locked = record self {
              tx = record (self.tx) { offset_state = r.0 };
              error = r.1;
            } in
            some (
              if is_set r.1
              then (locked, ssize_error)
              else offset_read locked (os.lseek_cur self.sys)))

    unfoldable pub regfile_tx_set_file_offset : ℕ → Io S → Option (Io S)
    unfolding try_field
    regfile_tx_set_file_offset offset self =
        try_field (rwstate_try_wrlock lock wait) self.tx.offset_state self.error >>= λ r.
        let locked = record self { tx = record (self.tx) { offset_state = r.0 }; error = r.1 } in
        some (
          if is_set r.1
          then locked
          else record locked { tx = record (locked.tx) { offset = offset } })

    unfoldable pub pread_exec : ℕ → (ℕ → ℕ) → ℕ → ℕ → Io S → Option (Io S × ℕ × (ℕ → ℕ))
    unfolding do_pread iooptab_read llmax
    pread_exec fuel buf nbyte offset self =
        let locked = lock_region false nbyte offset self.error in
        if is_set locked
        then some (with_io_error self locked, ssize_error, buf)
        else (do_pread fuel buf nbyte offset self.sys locked >>= λ r.
            let b = self.tx.seekbuf_tx in
            let read : ℕ × (ℕ → ℕ) = iooptab_read b.wrtab.ops r.1 nbyte offset b.wrbuf in
            some (
              if is_set r.2
              then (with_io_error self r.2, r.0, r.1)
              else (with_io_error self r.2, llmax r.0 read.0, read.1)))

    -- The update of the file's size behind a write, which both writes end with.
    unfoldable pub update_file_size : ℕ → ℕ → Option ℕ → Io S → Option (Io S × ℕ × Option ℕ)
    unfolding seekbuf_tx_get_file_size seekbuf_tx_set_file_size
    update_file_size len offset cookie self =
        seekbuf_tx_get_file_size os lock wait self.sys self.tx.seekbuf_tx self.error >>= λ g.
        let sized = with_seekbuf self g.0 g.2 in
        if is_set g.2
        then some (sized, ssize_error, cookie)
        else if less_signed g.1 (add_word offset len)
        then (seekbuf_tx_set_file_size os lock wait g.0 (add_word offset len) g.2 >>= λ r.
            some (with_seekbuf self r.0 r.1, if is_set r.1 then ssize_error else len, cookie))
        else some (sized, len, cookie)

    -- The data of a write, in the file or in the write set: the transaction, the length and the cookie.
    unfoldable pub pwrite_exec : ℕ → (ℕ → ℕ) → ℕ → ℕ → Bool → Io S → Option (Io S × ℕ × Option ℕ)
    unfolding do_pwrite append_to_writeset update_file_size
    pwrite_exec fuel bytes nbyte offset isnoundo self =
        let b = self.tx.seekbuf_tx in
        let locked = lock_region true nbyte offset self.error in
        if is_through b.wrmode && not isnoundo
        then some (with_io_error self (set_revocable self.error), ssize_error, none)
        else if is_set locked
        then some (with_io_error self locked, ssize_error, none)
        else if is_through b.wrmode
        then (do_pwrite fuel bytes nbyte offset self.sys locked >>= λ w.
            let written = record self { sys = w.0; error = w.2 } in
            if is_set w.2
            then some (written, w.1, none)
            else update_file_size w.1 offset none written)
        else (let r = append_to_writeset resize b nbyte offset bytes locked in
            let appended = with_seekbuf self r.0 r.2 in
            if is_set r.2
            then some (appended, ssize_error, r.1)
            else update_file_size nbyte offset r.1 appended)

    unfoldable pub read_exec : ℕ → (ℕ → ℕ) → ℕ → Io S → Option (Io S × ℕ × (ℕ → ℕ) × Option ℕ)
    unfolding do_pread iooptab_read llmax append_to_readset regfile_tx_get_file_offset
        regfile_tx_set_file_offset
    read_exec fuel buf nbyte self = regfile_tx_get_file_offset self >>= λ g.
        let offset = g.1 in
        let locked = lock_region false nbyte offset g.0.error in
        if is_set g.0.error
        then some (g.0, ssize_error, buf, none)
        else if is_set locked
        then some (with_io_error g.0 locked, ssize_error, buf, none)
        else (do_pread fuel buf nbyte offset g.0.sys locked >>= λ r.
            let b = g.0.tx.seekbuf_tx in
            let read : ℕ × (ℕ → ℕ) = iooptab_read b.wrtab.ops r.1 nbyte offset b.wrbuf in
            let res = llmax r.0 read.0 in
            if is_set r.2
            then some (with_io_error g.0 r.2, r.0, r.1, none)
            else (regfile_tx_set_file_offset (add_word offset res) (with_io_error g.0 r.2) >>= λ o.
                let a = append_to_readset resize o.tx.seekbuf_tx nbyte offset o.error in
                some (
                  if is_set o.error
                  then (o, ssize_error, read.1, none)
                  else if is_set a.2
                  then (with_seekbuf o a.0 a.2, ssize_error, read.1, a.1)
                  else (with_seekbuf o a.0 a.2, res, read.1, a.1))))

    unfoldable pub write_exec : ℕ → (ℕ → ℕ) → ℕ → Bool → Io S → Option (Io S × ℕ × Option ℕ)
    unfolding do_pwrite_and_lseek append_to_writeset regfile_tx_get_file_offset
        regfile_tx_set_file_offset update_file_size
    write_exec fuel bytes nbyte isnoundo self =
        if is_through self.tx.seekbuf_tx.wrmode && not isnoundo
        then some (with_io_error self (set_revocable self.error), ssize_error, none)
        else (regfile_tx_get_file_offset self >>= λ g.
            let offset = g.1 in
            let b = g.0.tx.seekbuf_tx in
            let locked = lock_region true nbyte offset g.0.error in
            if is_set g.0.error
            then some (g.0, ssize_error, none)
            else if is_set locked
            then some (with_io_error g.0 locked, ssize_error, none)
            else if is_through b.wrmode
            then (do_pwrite_and_lseek fuel bytes nbyte offset g.0.sys locked >>= λ w.
                let written = record (g.0) { sys = w.0; error = w.2 } in
                if is_set w.2 then some (written, w.1, none) else moved offset w.1 none written)
            else (let r = append_to_writeset resize b nbyte offset bytes locked in
                let appended = with_seekbuf g.0 r.0 r.2 in
                if is_set r.2
                then some (appended, ssize_error, r.1)
                else moved offset nbyte r.1 appended))
      where
        -- The file offset and the size after a write.
        moved : ℕ → ℕ → Option ℕ → Io S → Option (Io S × ℕ × Option ℕ)
        moved offset len cookie io = regfile_tx_set_file_offset (add_word offset len) io >>= λ o.
            if is_set o.error
            then some (o, ssize_error, cookie)
            else update_file_size len offset cookie o

    unfoldable pub pwrite_apply : ℕ → ℕ → Io S → Option (Io S)
    unfolding do_pwrite
    pwrite_apply fuel cookie self =
        let b = self.tx.seekbuf_tx in
        if is_through b.wrmode
        then some self
        else (get_elem? b.wrtab.ops cookie >>= λ op.
            do_pwrite fuel (λ i. b.wrbuf (op.bufoff + i)) op.nbyte op.off self.sys self.error
            >>= λ w. some (record self { sys = w.0; error = w.2 }))

    unfoldable pub write_apply : ℕ → ℕ → Io S → Option (Io S)
    unfolding do_pwrite_and_lseek
    write_apply fuel cookie self =
        let b = self.tx.seekbuf_tx in
        if is_through b.wrmode
        then some self
        else (get_elem? b.wrtab.ops cookie >>= λ op.
            do_pwrite_and_lseek fuel (λ i. b.wrbuf (op.bufoff + i)) op.nbyte op.off self.sys
              self.error
            >>= λ w. some (record self { sys = w.0; error = w.2 }))

    unfoldable pub read_apply : ℕ → Io S → Option (Io S)
    read_apply cookie self = get_elem? self.tx.seekbuf_tx.rdtab.ops cookie >>= λ op.
        let r = sought 0 self.error (os.lseek_set (add_word op.off op.nbyte) self.sys) in
        some (record self { sys = r.0; error = r.2 })
