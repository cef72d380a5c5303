-- ===== src/Tests/Files.antt =====
-- modules/libc/src/fildes: a transaction on a file of three bytes, whose system calls read and write at
-- most two bytes at a time.
use picotm.Prelude.{
  ℕ, ◌+◌, ◌-◌, ◌%◌, ◌/◌, ◌≤◌, ◌<◌, ◌≡◌, ◌⊎◌, inl, inr, refl, arith, Bool, true, false, some, List,
  [], ◌∷◌, ltb, ◌==◌, if◌then◌else◌, Bool-cases,
}
use picotm.Error.{Error, error_initializer, is_set, is_set-initializer}
use picotm.Rwlock.Threads.{unlocked}
use picotm.Rwlock.Wait.{Attempt}
use picotm.Rwlock.State.{Rwstate}
use picotm.Fildes.{IoOp, iooptab_read}
use picotm.Fildes.Ranges.{max_of, min_of}
use picotm.Fildes.Overlay.{overlay_all, iooptab_read_lem}
use picotm.Fildes.Seekbuf.{SysCalls, done, write_back, recoffset, reccount}
use picotm.Fildes.Regfile.{Io}
use picotm.Fildes.Calls.{IsFile, written}
use picotm.Fildes.Commit.{apply_cookies}
use picotm.Fildes.Session.{
  FileOp, read_at, write_at, Answer, has_read, has_written, AllAgree, exec_file_ops,
}
use picotm.Fildes.Refine.{apply_cookies-exec_file_ops}
use picotm.Fildes.Records.{reccount_lem}

record TestFile : Type 0 where
  content : ℕ → ℕ
  size : ℕ

abbrev at_most_2 : ℕ → ℕ
at_most_2 n = min_of 2 n

abbrev test_system : SysCalls TestFile
test_system = record {
  pread = λ n off s. (done (at_most_2 (min_of n (s.size - off))), λ i. s.content (off + i));
  pwrite = λ d n off s. (
    done (at_most_2 n),
    record {
      content = written d (at_most_2 n) off s.content;
      size = max_of s.size (off + at_most_2 n);
    },
  );
  fstat = λ s. done s.size;
  lseek_cur = λ s. done 0;
  lseek_set = λ off s. (done off, s);
}

abbrev test_content : TestFile → ℕ → ℕ
test_content s = s.content

abbrev test_size : TestFile → ℕ
test_size s = s.size

test_system-IsFile : IsFile test_system test_content test_size
test_system-IsFile = record {
  pread_law = λ n off s. (
    at_most_2 (min_of n (s.size - off)),
    refl,
    ground arith,
    some_or_end (min_of n (s.size - off)),
    λ i l. refl,
  );
  pwrite_law = λ d n off s pos. (at_most_2 n, _, refl, ground arith, ground arith, λ a. refl, refl);
}
  where
    some_or_end : (n : ℕ) → (n ≡ 0) ⊎ (0 < at_most_2 n)
    some_or_end n = elim (Bool-cases (n == 0)) [
      | inl h ↦ inl (ground arith)
      | inr h ↦ inr (ground arith)
    ]

abbrev three_bytes : TestFile
three_bytes = record { content = λ a. if ltb a 3 then a + 1 else 0; size = 3 }

abbrev test_state : Rwstate
test_state = record { status = unlocked; attempt = record { word = 0; error = error_initializer } }

abbrev file_io : Io TestFile
file_io = record {
  tx = record {
    seekbuf_tx = record {
      wrmode = write_back;
      wrbuf = λ i. 0;
      wrbuflen = 0;
      wrtab = record { ops = []; room = 0 };
      rdtab = record { ops = []; room = 0 };
      file_size = 0;
      size_state = test_state;
    };
    offset = 0;
    offset_state = test_state;
  };
  sys = three_bytes;
  error = error_initializer;
}

abbrev new_bytes : ℕ → ℕ
new_bytes i = 70 + i

abbrev file_ops : List FileOp
file_ops = write_at new_bytes 4 2 ∷ read_at (λ i. 99) 9 1 ∷ write_at new_bytes 2 6 ∷ []

abbrev file_after : ℕ → ℕ
file_after = written new_bytes 2 6 (written new_bytes 4 2 three_bytes.content)

abbrev plain_answers : List Answer
plain_answers =
    has_written 4
    ∷ has_read 5 (λ i. written new_bytes 4 2 three_bytes.content (1 + i))
    ∷ has_written 2
    ∷ []

abbrev file_stay : Attempt → Attempt
file_stay a = a

abbrev file_resized : Error → Error
file_resized e = e

abbrev region_locked : Bool → ℕ → ℕ → Error → Error
region_locked write nbyte offset e = e

apply_cookies-exec_file_ops_example :
    (q : Io TestFile) × (answers : List Answer) × (cookies : List ℕ) × (exec_file_ops test_system 4
        file_stay file_resized region_locked 30 file_ops file_io
      ≡ some (q, answers, cookies))
    × (q.sys ≡ three_bytes)
    × ((is_set q.error ≡ true)
        ⊎ AllAgree answers plain_answers
          × ((r : Io TestFile) × (apply_cookies test_system 4 file_stay file_resized region_locked
                  30 cookies q
                ≡ some r)
              × (is_set r.error ≡ false)
              × ((a : ℕ) → test_content r.sys a ≡ file_after a)
              × (test_size r.sys ≡ 8)))
apply_cookies-exec_file_ops_example =
    apply_cookies-exec_file_ops test_system test_content test_size 4 file_stay file_resized
      region_locked 30 file_ops file_io plain_answers file_after 8 test_system-IsFile refl refl refl
      is_set-initializer refl (omega arith) (omega arith)

abbrev two_writes : List IoOp
two_writes =
    record { off = 4; nbyte = 3; bufoff = 0 } ∷ record { off = 6; nbyte = 2; bufoff = 3 } ∷ []

abbrev file_5 : ℕ → ℕ
file_5 a = 5

iooptab_read_lem_example :
    ((4 < 6)
      × ((iooptab_read two_writes (λ i. 5) 6 2 new_bytes).1 4
          ≡ overlay_all two_writes new_bytes file_5 6))
    ⊎ ((6 ≤ 4) × ((iooptab_read two_writes (λ i. 5) 6 2 new_bytes).1 4 ≡ 5))
iooptab_read_lem_example =
    iooptab_read_lem 6 2 new_bytes (omega arith) two_writes (λ i. 5) file_5 4
      ((omega arith, omega arith), ((omega arith, omega arith), tt)) refl

reccount_lem_example :
    ((31 % 32 + 2 % 32 ≤ 32) × ((31 + 2 - 1) / 32 < recoffset 32 31 + reccount 32 2))
    ⊎ ((32 < 31 % 32 + 2 % 32) × ((31 + 2 - 1) / 32 ≡ recoffset 32 31 + reccount 32 2))
reccount_lem_example = reccount_lem 31 2 (omega arith)
