-- ===== src/Fildes/Writes.antt =====
-- modules/libc/src/fildes/regfile_tx.c: a write that waits for the commit.
use picotm.Prelude.{
  ℕ, ◌+◌, ◌≡◌, ◌⊎◌, inl, inr, refl, sym, ◌∙◌, ap, arith, Bool, true, false, Option, ap₂, ==→eq,
  none, some, fun_ext, [], ◌∷◌, ◌++◌, length, leb, Bool-cases, if_true, ◌>>=◌, ◌==◌,
}
use picotm.Error.{Error, is_set, set_errno}
use picotm.Rwlock.Wait.{Attempt}
use picotm.Rwlock.State.{Rwstate, is_unlocked, rwstate_try_rdlock, rwstate_try_wrlock}
use picotm.Rwlock.Accounting.{rwstate_try_rdlock_lem, rwstate_try_wrlock_lem}
use picotm.Fildes.{memcpy, ioop_init, less_signed, add_word, iooptab_append, IoOpTab}
use picotm.Fildes.Ranges.{Fits, add_word_lem}
use picotm.Fildes.Seekbuf.{
  SysCalls, SysResult, done, broken, ssize_error, try_field, SeekbufTx, seekbuf_tx_get_file_size,
  seekbuf_tx_set_file_size, append_to_writeset, append_to_iobuffer, sized,
}
use picotm.Fildes.Regfile.{Io, with_seekbuf, update_file_size}

-- To lock a field comes back.
try_field-read :
    (lock : ℕ) (wait : Attempt → Attempt) (st : Rwstate) (error : Error)
    → (s : Rwstate) × (e : Error) × (try_field (rwstate_try_rdlock lock wait) st error
        ≡ some (s, e))
unfolding try_field
try_field-read lock wait st error =
    let a = record (st.attempt) { error = error } in
    (
      _,
      _,
      ap (λ o. o >>= λ s. some (s, s.attempt.error)) (rwstate_try_rdlock_lem lock wait st.status a),
    )

try_field-write :
    (lock : ℕ) (wait : Attempt → Attempt) (st : Rwstate) (error : Error)
    → (s : Rwstate) × (e : Error) × (try_field (rwstate_try_wrlock lock wait) st error
        ≡ some (s, e))
unfolding try_field
try_field-write lock wait st error =
    let a = record (st.attempt) { error = error } in
    (
      _,
      _,
      ap (λ o. o >>= λ s. some (s, s.attempt.error)) (rwstate_try_wrlock_lem lock wait st.status a),
    )

-- The write set with another size of the file.
abbrev pub resized : SeekbufTx → ℕ → Rwstate → SeekbufTx
resized b file_size st = record b { file_size = file_size; size_state = st }

module _ {S : Type 0} (os : SysCalls S) (lock : ℕ) (wait : Attempt → Attempt) where
  sized_lem :
      (b : SeekbufTx) (st : Rwstate) (error : Error) (r : SysResult)
      → (file_size : ℕ) × (n : ℕ) × (e : Error) × (sized os lock wait
            (record b { size_state = st })
            error
            r
          ≡ (resized b file_size st, n, e))
  sized_lem b st error (done count) = (count, count, error, refl)
  sized_lem b st error (broken errno) = (b.file_size, ssize_error, set_errno error errno, refl)

  get_file_size_lem :
      (s : S) (b : SeekbufTx) (error : Error)
      → (file_size : ℕ) × (st : Rwstate) × (n : ℕ) × (e : Error) × (seekbuf_tx_get_file_size os lock
            wait s b error
          ≡ some (resized b file_size st, n, e))
  unfolding seekbuf_tx_get_file_size
  get_file_size_lem s b error = elim (Bool-cases (is_unlocked b.size_state.status)) [
    | inr known ↦ (b.file_size, b.size_state, b.file_size, error, rw known refl)
    | inl unknown ↦
        let (st, e, h) = try_field-read lock wait b.size_state error in
        elim (Bool-cases (is_set e)) [
          | inl bad ↦ (b.file_size, st, ssize_error, e, rw (unknown, h, bad) refl)
          | inr fine ↦
              let (fs, n, e2, k) = sized_lem b st e (os.fstat s) in
              (fs, st, n, e2, rw (unknown, h, fine) (ap some k))
        ]
  ]

  set_file_size_lem :
      (b : SeekbufTx) (size : ℕ) (error : Error)
      → (file_size : ℕ) × (st : Rwstate) × (e : Error) × (seekbuf_tx_set_file_size os lock wait b
            size error
          ≡ some (resized b file_size st, e))
  unfolding seekbuf_tx_set_file_size
  set_file_size_lem b size error =
      let (st, e, h) = try_field-write lock wait b.size_state error in
      elim (Bool-cases (is_set e)) [
        | inl bad ↦ (b.file_size, st, e, rw (h, bad) refl)
        | inr fine ↦ (size, st, e, rw (h, fine) refl)
      ]

  module _ (resize : Error → Error) (lock_region : Bool → ℕ → ℕ → Error → Error) where
    abbrev Updated : ℕ → ℕ → Option ℕ → Io S → Type 0
    Updated len offset cookie io =
        (file_size : ℕ) × (st : Rwstate) × (e : Error) × (answer : ℕ) × (update_file_size os lock
            wait resize lock_region len offset cookie io
          ≡ some (
            with_seekbuf os lock wait resize lock_region io (resized io.tx.seekbuf_tx file_size st)
                e,
            answer,
            cookie,
          ))
        × ((is_set e ≡ true) ⊎ (answer ≡ len))

    -- The update of the file's size comes back with an error or with the length.
    pub update_file_size_lem :
        (len offset : ℕ) (cookie : Option ℕ) (io : Io S) → Updated len offset cookie io
    unfolding update_file_size
    update_file_size_lem len offset cookie io =
        let b = io.tx.seekbuf_tx in
        let (fs, st, n, e, h) = get_file_size_lem io.sys b io.error in
        elim (Bool-cases (is_set e)) [
          | inl bad ↦ (fs, st, e, ssize_error, rw (h, bad) refl, inl bad)
          | inr fine ↦ elim (Bool-cases (less_signed n (add_word offset len))) [
            | inr large ↦ (fs, st, e, len, rw (h, fine, large) refl, inr refl)
            | inl small ↦
                let (fs2, st2, e2, h2) =
                  set_file_size_lem (resized b fs st) (add_word offset len) e in
                elim (Bool-cases (is_set e2)) [
                  | inl bad ↦
                      (fs2, st2, e2, ssize_error, rw (h, fine, small, h2, bad) refl, inl bad)
                  | inr fine2 ↦ (fs2, st2, e2, len, rw (h, fine, small, h2, fine2) refl, inr refl)
                ]
          ]
        ]

memcpy_none : (b : ℕ → ℕ) (at start : ℕ) (d : ℕ → ℕ) → memcpy b at d start 0 ≡ b
unfolding memcpy
memcpy_none b at start d = fun_ext λ i. ground arith

-- The write set with one more write.
unfoldable pub appended : SeekbufTx → (ℕ → ℕ) → ℕ → ℕ → ℕ → SeekbufTx
unfolding memcpy
appended b bytes nbyte offset room = record b {
  wrbuf = memcpy b.wrbuf b.wrbuflen bytes 0 nbyte;
  wrbuflen = b.wrbuflen + nbyte;
  wrtab = record {
    ops = b.wrtab.ops ++ (record { off = offset; nbyte = nbyte; bufoff = b.wrbuflen }) ∷ [];
    room = room;
  };
}

module _ (resize : Error → Error) where
  -- The table of writes takes one more, or an error.
  iooptab_append_lem :
      (tab : IoOpTab) (nbyte offset bufoff : ℕ) (error : Error)
      → is_set error ≡ false
      → (room : ℕ) × (e : Error) × ((iooptab_append resize tab nbyte offset bufoff error
              ≡ (tab, none, e))
            × (is_set e ≡ true)
          ⊎ (iooptab_append resize tab nbyte offset bufoff error ≡ (
            record { ops = tab.ops ++ ioop_init offset nbyte bufoff ∷ []; room = room },
            some (length tab.ops),
            e,
          ))
            × (is_set e ≡ false))
  unfolding iooptab_append
  iooptab_append_lem tab nbyte offset bufoff error fine =
      elim (Bool-cases (leb tab.room (length tab.ops))) [
        | inr space ↦ (tab.room, error, inr (rw space refl, fine))
        | inl full ↦ elim (Bool-cases (is_set (resize error))) [
          | inl bad ↦ (tab.room, resize error, inl (rw (full, bad) refl, bad))
          | inr grown ↦ (tab.room + 1, resize error, inr (rw (full, grown) refl, grown))
        ]
      ]

  abbrev buffered : SeekbufTx → (ℕ → ℕ) → ℕ → SeekbufTx
  unfolding memcpy
  buffered b bytes nbyte = record b {
    wrbuf = memcpy b.wrbuf b.wrbuflen bytes 0 nbyte;
    wrbuflen = b.wrbuflen + nbyte;
  }

  -- The buffer takes the bytes, or an error.
  append_to_iobuffer_lem :
      (b : SeekbufTx) (nbyte : ℕ) (bytes : ℕ → ℕ) (error : Error)
      → is_set error ≡ false
      → Fits b.wrbuflen nbyte
      → (e : Error) × ((append_to_iobuffer resize b nbyte bytes error ≡ (b, ssize_error, e))
            × (is_set e ≡ true)
          ⊎ (append_to_iobuffer resize b nbyte bytes error
              ≡ (buffered b bytes nbyte, b.wrbuflen, e))
            × (is_set e ≡ false))
  unfolding append_to_iobuffer buffered
  append_to_iobuffer_lem b nbyte bytes error fine fits = elim (Bool-cases (nbyte == 0)) [
    | inl empty ↦
        let none_left = ==→eq nbyte 0 empty in
        (
          error,
          inr (
            if_true (nbyte == 0) _ _ empty
                ∙ ap₂ (λ w l. (record b { wrbuf = w; wrbuflen = l }, b.wrbuflen, error))
                    (sym (memcpy_none b.wrbuf b.wrbuflen 0 bytes)
                      ∙ ap (memcpy b.wrbuf b.wrbuflen bytes 0) (sym none_left))
                    (omega arith),
            fine,
          ),
        )
    | inr full ↦ elim (Bool-cases (is_set (resize error))) [
      | inl bad ↦ (resize error, inl (rw (full, bad) refl, bad))
      | inr grown ↦ (
        resize error,
        inr (
          rw (full, grown)
              (ap
                (λ l. (
                  record b { wrbuf = memcpy b.wrbuf b.wrbuflen bytes 0 nbyte; wrbuflen = l },
                  b.wrbuflen,
                  resize error,
                ))
                (add_word_lem b.wrbuflen nbyte fits)),
          grown,
        ),
      )
    ]
  ]

  pub append_to_writeset_lem :
      (b : SeekbufTx) (nbyte offset : ℕ) (bytes : ℕ → ℕ) (error : Error)
      → is_set error ≡ false
      → Fits b.wrbuflen nbyte
      → (b2 : SeekbufTx) × (index : Option ℕ) × (e : Error) × (append_to_writeset resize b nbyte
            offset bytes error
          ≡ (b2, index, e))
        × ((is_set e ≡ true)
            ⊎ ((is_set e ≡ false)
                × (room : ℕ) × (b2 ≡ appended b bytes nbyte offset room)
                × (index ≡ some (length b.wrtab.ops))))
  unfolding append_to_writeset appended
  append_to_writeset_lem b nbyte offset bytes error fine fits =
      let (e, cases) = append_to_iobuffer_lem b nbyte bytes error fine fits in
      elim cases [
        | inl (h, bad) ↦ (b, none, e, rw (h, bad) refl, inl bad)
        | inr (h, fine2) ↦
            let (room, e2, cases2) = iooptab_append_lem b.wrtab nbyte offset b.wrbuflen e fine2 in
            elim cases2 [
              | inl (h2, bad) ↦ (buffered b bytes nbyte, none, e2, rw (h, fine2, h2) refl, inl bad)
              | inr (h2, fine3) ↦ (
                appended b bytes nbyte offset room,
                some (length b.wrtab.ops),
                e2,
                rw (h, fine2, h2) refl,
                inr (fine3, room, refl, refl),
              )
            ]
      ]
