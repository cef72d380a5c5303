-- ===== src/Fildes/Refine.antt =====
-- modules/libc/src/fildes/regfile_tx.c: a transaction on a file next to the same calls on a plain file.
use picotm.Prelude.{
  ℕ, zero, suc, ◌+◌, ◌^◌, ◌<◌, ◌≡◌, ◌⊎◌, inl, inr, refl, sym, ◌∙◌, ap, ap₂, subst, arith, Bool,
  true, false, some, some-injective, List, [], ◌∷◌, ◌++◌, length, length-append, ◌>>=◌, bind-some,
}
use picotm.Error.{Error, is_set}
use picotm.Rwlock.Wait.{Attempt}
use picotm.Fildes.Ranges.{Fits}
use picotm.Fildes.Seekbuf.{SysCalls, is_through}
use picotm.Fildes.Regfile.{Io}
use picotm.Fildes.Calls.{IsFile}
use picotm.Fildes.Pending.{IsPending}
use picotm.Fildes.Commit.{cookies_from, apply_cookies, apply_cookies_lem}
use picotm.Fildes.Session.{
  FileOp, Answer, all_nbytes, run_file_op, run_file_ops, AllAgree, exec_file_ops,
}
use picotm.Fildes.Steps.{pending_writes, IsDone, at_zero, none_more, one_up, one_out, step}

module _ {S : Type 0} (os : SysCalls S) (content : S → ℕ → ℕ) (size : S → ℕ)
    (file : IsFile os content size) (lock : ℕ) (wait : Attempt → Attempt) (resize : Error → Error)
    (lock_region : Bool → ℕ → ℕ → Error → Error) (fuel : ℕ) where
  cookies_from-append :
      (k : ℕ) (cs ds : List ℕ)
      → cs ≡ cookies_from k (length cs)
      → ds ≡ cookies_from (k + length cs) (length ds)
      → cs ++ ds ≡ cookies_from k (length (cs ++ ds))
  cookies_from-append k cs ds h e =
      ap₂ ◌++◌ h e
      ∙ joined k (length cs) (length ds)
      ∙ ap (cookies_from k) (sym (length-append cs ds))
    where
      joined : (k m n : ℕ) → cookies_from k m ++ cookies_from (k + m) n ≡ cookies_from k (m + n)
      joined k zero n = ap₂ cookies_from (at_zero k) (none_more n)
      joined k (suc m) n =
          ap (◌∷◌ k)
            (ap (λ i. cookies_from (suc k) m ++ cookies_from i n) (one_up k m) ∙ joined (suc k) m n)
          ∙ ap (cookies_from k) (one_out m n)

  exec_file_ops-IsDone :
      (ops : List FileOp) (io : Io S) (f : ℕ → ℕ) (n : ℕ) (plain : List Answer) (g : ℕ → ℕ) (m : ℕ)
      → run_file_ops ops f n ≡ some (plain, g, m)
      → IsPending io.tx.seekbuf_tx (content io.sys) (size io.sys) f n
      → is_set io.error ≡ false
      → io.tx.seekbuf_tx.wrbuflen + all_nbytes ops < fuel
      → Fits io.tx.seekbuf_tx.wrbuflen (all_nbytes ops)
      → (q : Io S) × (answers : List Answer) × (cookies : List ℕ) × (exec_file_ops os lock wait
            resize lock_region fuel ops io
          ≡ some (q, answers, cookies))
        × (q.sys ≡ io.sys)
        × ((is_set q.error ≡ true)
            ⊎ AllAgree answers plain × IsDone content size io q cookies g m (all_nbytes ops))
  exec_file_ops-IsDone [] io f n plain g m h p fine enough fits =
      let e = some-injective _ _ h in
      (
        io,
        [],
        [],
        refl,
        refl,
        inr (
          subst (AllAgree []) (ap (λ (r : List Answer × (ℕ → ℕ) × ℕ). r.0) e) tt,
          record {
            fine = fine;
            pending =
                subst
                  (λ (r : List Answer × (ℕ → ℕ) × ℕ).
                    IsPending io.tx.seekbuf_tx (content io.sys) (size io.sys) r.1 r.2)
                  e p;
            logged = refl;
            counted = omega arith;
            used = omega arith;
          },
        ),
      )
  exec_file_ops-IsDone (op ∷ ops) io f n plain g m h p fine enough fits =
      let ((first, f2, n2), h1, h2) =
        bind-some (run_file_op op f n)
          (λ r. run_file_ops ops r.1 r.2 >>= λ rs. some (r.0 ∷ rs.0, rs.1, rs.2)) (plain, g, m) h in
      let ((others, g2, m2), h3, h4) =
        bind-some (run_file_ops ops f2 n2) (λ rs. some (first ∷ rs.0, rs.1, rs.2)) (plain, g, m)
          h2 in
      let (q, answer, cookies, e, same, cases) =
        step os content size file lock wait resize lock_region fuel op io f n first f2 n2 h1 p
          (omega arith) (omega arith) in
      elim cases [
        | inl bad ↦ (q, answer ∷ [], cookies, rw (e, bad) refl, same, inl bad)
        | inr (agrees, done_one) ↦
            let (q2, answers, cookies2, e2, same2, cases2) =
              exec_file_ops-IsDone ops q f2 n2 others g2 m2 h3 done_one.pending done_one.fine
                (omega (arith, done_one.used)) (omega (arith, done_one.used)) in
            (
              q2,
              answer ∷ answers,
              cookies ++ cookies2,
              rw (e, done_one.fine, e2) refl,
              same2 ∙ same,
              elim cases2 [
                | inl bad ↦ inl bad
                | inr (agree, done_all) ↦
                    let last = some-injective _ _ h4 in
                    inr (
                      subst (AllAgree (answer ∷ answers))
                          (ap (λ (r : List Answer × (ℕ → ℕ) × ℕ). r.0) last) (agrees, agree),
                      record {
                        fine = done_all.fine;
                        pending =
                            subst
                              (λ (r : List Answer × (ℕ → ℕ) × ℕ).
                                IsPending q2.tx.seekbuf_tx (content q2.sys) (size q2.sys) r.1 r.2)
                              last done_all.pending;
                        logged =
                            cookies_from-append (pending_writes io) cookies cookies2 done_one.logged
                              (subst (λ k. cookies2 ≡ cookies_from k (length cookies2))
                                done_one.counted done_all.logged);
                        counted = omega (
                          arith,
                          done_one.counted,
                          done_all.counted,
                          length-append cookies cookies2,
                        );
                        used = omega (arith, done_one.used, done_all.used);
                      },
                    )
              ],
            )
      ]

-- A transaction of reads and writes at given offsets of a file always gets through its calls or to its first
-- error, and does not change the file of the system. Without an error, its reads have answered what the
-- same calls on a plain file answer, its own writes included; and its commit, which applies the events in
-- the order of the log, then ends without an error and leaves the plain file with the writes. The
-- hypotheses: the system's file works as POSIX says, the transaction starts in write-back mode without
-- pending writes and without an error, every call stays in the range of the offsets, every write begins
-- within the file or at its end, and the fuel is more than all bytes together, which are fewer than 2 ^ 63.
-- To lock a region or a field and to grow a table may fail at any time.
pub apply_cookies-exec_file_ops :
    {S : Type 0} (os : SysCalls S) (content : S → ℕ → ℕ) (size : S → ℕ) (lock : ℕ)
    (wait : Attempt → Attempt) (resize : Error → Error) (lock_region : Bool → ℕ → ℕ → Error → Error)
    (fuel : ℕ) (ops : List FileOp) (io : Io S) (plain : List Answer) (f : ℕ → ℕ) (n : ℕ)
    → IsFile os content size
    → is_through io.tx.seekbuf_tx.wrmode ≡ false
    → io.tx.seekbuf_tx.wrtab.ops ≡ []
    → io.tx.seekbuf_tx.wrbuflen ≡ 0
    → is_set io.error ≡ false
    → run_file_ops ops (content io.sys) (size io.sys) ≡ some (plain, f, n)
    → all_nbytes ops < fuel
    → all_nbytes ops < 2 ^ 63
    → (q : Io S) × (answers : List Answer) × (cookies : List ℕ) × (exec_file_ops os lock wait resize
          lock_region fuel ops io
        ≡ some (q, answers, cookies))
      × (q.sys ≡ io.sys)
      × ((is_set q.error ≡ true)
          ⊎ AllAgree answers plain
            × ((r : Io S) × (apply_cookies os lock wait resize lock_region fuel cookies q ≡ some r)
                × (is_set r.error ≡ false)
                × ((a : ℕ) → content r.sys a ≡ f a)
                × (size r.sys ≡ n)))
apply_cookies-exec_file_ops os content size lock wait resize lock_region fuel ops io plain f n file
      back no_ops no_bytes fine h enough fits =
    let start : IsPending io.tx.seekbuf_tx (content io.sys) (size io.sys) (content io.sys)
        (size io.sys) =
      record {
        waits = back;
        fits = rw no_ops tt;
        no_gap = rw no_ops tt;
        stored = rw no_ops tt;
        same_bytes = rw no_ops (λ a. refl);
        same_size = rw no_ops refl;
      } in
    let (q, answers, cookies, e, same, cases) =
      exec_file_ops-IsDone os content size file lock wait resize lock_region fuel ops io
        (content io.sys) (size io.sys) plain f n h start fine (omega arith) (omega arith) in
    elim cases [
      | inl bad ↦ (q, answers, cookies, e, same, inl bad)
      | inr (agree, finished) ↦
          let (r, e2, fine2, bytes, total) =
            apply_cookies_lem os content size file lock wait resize lock_region fuel q f n
              finished.pending (omega (arith, finished.used)) finished.fine in
          let none_before = ap length no_ops in
          let all : cookies ≡ cookies_from 0 (pending_writes q) =
            finished.logged
            ∙ ap₂ (λ k j. cookies_from k j) none_before
                (omega (arith, finished.counted, none_before)) in
          (
            q,
            answers,
            cookies,
            e,
            same,
            inr (
              agree,
              (
                r,
                ap (λ cs. apply_cookies os lock wait resize lock_region fuel cs q) all ∙ e2,
                fine2,
                bytes,
                total,
              ),
            ),
          )
    ]
