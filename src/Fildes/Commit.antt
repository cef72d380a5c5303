-- ===== src/Fildes/Commit.antt =====
-- modules/libc/src/fildes/regfile_tx.c: a write from its execution to its commit.
use picotm.Prelude.{
  ℕ, zero, suc, ◌+◌, ◌≤◌, ◌<◌, ◌≡◌, refl, sym, ◌∙◌, ap, subst, arith, Bool, false, Option, some,
  List, [], ◌∷◌, ◌++◌, length, get_elem?, if_false, ◌>>=◌, append_assoc, fun_ext, if◌then◌else◌,
}
use picotm.Error.{Error, is_set}
use picotm.Rwlock.Wait.{Attempt}
use picotm.Fildes.{IoOp}
use picotm.Fildes.Ranges.{max_of}
use picotm.Fildes.Overlay.{overlay_all, grown_size, NoGap}
use picotm.Fildes.Seekbuf.{SysCalls, is_through}
use picotm.Fildes.Regfile.{Io, pwrite_apply, do_pwrite}
use picotm.Fildes.Calls.{IsFile, written_size, do_pwrite_lem}
use picotm.Fildes.Pending.{IsPending, StoredIn}
use picotm.Fildes.Accepted.{length-snoc}

-- The cookies of the events in the order of the log, from `k` on.
abbrev pub cookies_from : ℕ → ℕ → List ℕ
cookies_from k zero = []
cookies_from k (suc n) = k ∷ cookies_from (suc k) n

module _ {S : Type 0} (os : SysCalls S) (lock : ℕ) (wait : Attempt → Attempt)
    (resize : Error → Error) (lock_region : Bool → ℕ → ℕ → Error → Error) (fuel : ℕ) where
  -- The application of the events, up to the first error.
  abbrev pub apply_cookies : List ℕ → Io S → Option (Io S)
  apply_cookies [] io = some io
  apply_cookies (c ∷ cs) io = pwrite_apply os lock wait resize lock_region fuel c io >>= λ q.
      if is_set q.error then some q else apply_cookies cs q

module _ {S : Type 0} (os : SysCalls S) (content : S → ℕ → ℕ) (size : S → ℕ)
    (file : IsFile os content size) (lock : ℕ) (wait : Attempt → Attempt) (resize : Error → Error)
    (lock_region : Bool → ℕ → ℕ → Error → Error) (fuel : ℕ) where
  get_elem?-middle :
      {A : Type 0} (pre : List A) (x : A) (rest : List A)
      → get_elem? (pre ++ x ∷ rest) (length pre) ≡ some x
  get_elem?-middle [] x rest = refl
  get_elem?-middle (y ∷ pre) x rest = get_elem?-middle pre x rest

  whole_size : (n off total : ℕ) → off ≤ total → written_size n off total ≡ max_of total (off + n)
  whole_size n off total le = ground arith

  -- The application of one write.
  applied :
      (k : ℕ) (op : IoOp) (io : Io S) (t : S)
      → is_through io.tx.seekbuf_tx.wrmode ≡ false
      → get_elem? io.tx.seekbuf_tx.wrtab.ops k ≡ some op
      → do_pwrite os fuel
          (λ i. io.tx.seekbuf_tx.wrbuf (op.bufoff + i))
          op.nbyte
          op.off
          io.sys
          io.error
        ≡ some (t, op.nbyte, io.error)
      → pwrite_apply os lock wait resize lock_region fuel k io ≡ some (record io { sys = t })
  unfolding pwrite_apply
  applied k op io t back here h = rw (back, here, h) refl

  apply_cookies-from :
      (pre rest : List IoOp) (io : Io S)
      → is_through io.tx.seekbuf_tx.wrmode ≡ false
      → io.tx.seekbuf_tx.wrtab.ops ≡ pre ++ rest
      → StoredIn rest io.tx.seekbuf_tx.wrbuflen
      → io.tx.seekbuf_tx.wrbuflen < fuel
      → NoGap rest (size io.sys)
      → is_set io.error ≡ false
      → (q : Io S) × (apply_cookies os lock wait resize lock_region fuel
            (cookies_from (length pre) (length rest))
            io
          ≡ some q)
        × (is_set q.error ≡ false)
        × ((a : ℕ) → content q.sys a ≡ overlay_all rest io.tx.seekbuf_tx.wrbuf (content io.sys) a)
        × (size q.sys ≡ grown_size rest (size io.sys))
  apply_cookies-from pre [] io back at stored enough gap fine = (io, refl, fine, λ a. refl, refl)
  apply_cookies-from pre (op ∷ rest) io back at (fits, stored) enough (le, gap) fine =
      let b = io.tx.seekbuf_tx in
      let (t, h, (bytes, sizes)) =
        do_pwrite_lem os content size file op.nbyte op.off (λ i. b.wrbuf (op.bufoff + i)) io.sys
          io.error fuel (omega arith) in
      let next : Io S = record io { sys = t } in
      let here = ap (λ l. get_elem? l (length pre)) at ∙ get_elem?-middle pre op rest in
      let same_size : size t ≡ max_of (size io.sys) (op.off + op.nbyte) =
        sizes ∙ whole_size op.nbyte op.off (size io.sys) le in
      let (q, e, fine2, same, grown) =
        apply_cookies-from (pre ++ op ∷ []) rest next back
          (at ∙ sym (append_assoc pre (op ∷ []) rest)) stored enough
          (subst (NoGap rest) (sym same_size) gap) fine in
      (
        q,
        ap
              (λ o. o >>= λ r.
                if is_set r.error
                then some r
                else apply_cookies os lock wait resize lock_region fuel
                    (cookies_from (suc (length pre)) (length rest)) r)
              (applied (length pre) op io t back here h)
            ∙ if_false (is_set io.error) _ _ fine
            ∙ ap
                (λ k.
                  apply_cookies os lock wait resize lock_region fuel (cookies_from k (length rest))
                    next)
                (sym (length-snoc pre op))
            ∙ e,
        fine2,
        λ a. same a ∙ ap (λ g. overlay_all rest b.wrbuf g a) (fun_ext λ c. bytes c),
        grown ∙ ap (grown_size rest) same_size,
      )

  -- The commit of a transaction's writes, which applies their events in the order of the log, ends without
  -- an error and leaves the file that the write set stands for. The hypotheses: the system's file works as
  -- POSIX says, the write set stands for the file `f` of `n` bytes, there is no error at the start, and
  -- there is more fuel than bytes in the write buffer.
  pub apply_cookies_lem :
      (io : Io S) (f : ℕ → ℕ) (n : ℕ)
      → IsPending io.tx.seekbuf_tx (content io.sys) (size io.sys) f n
      → io.tx.seekbuf_tx.wrbuflen < fuel
      → is_set io.error ≡ false
      → (q : Io S) × (apply_cookies os lock wait resize lock_region fuel
            (cookies_from 0 (length io.tx.seekbuf_tx.wrtab.ops))
            io
          ≡ some q)
        × (is_set q.error ≡ false)
        × ((a : ℕ) → content q.sys a ≡ f a)
        × (size q.sys ≡ n)
  apply_cookies_lem io f n p enough fine =
      let (q, e, fine2, same, grown) =
        apply_cookies-from [] io.tx.seekbuf_tx.wrtab.ops io p.waits refl p.stored enough p.no_gap
          fine in
      (q, e, fine2, λ a. same a ∙ p.same_bytes a, grown ∙ p.same_size)
