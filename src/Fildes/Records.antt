-- ===== src/Fildes/Records.antt =====
-- modules/libc/src/fildes/seekbuf.c: the records that the lock of a region takes.
use picotm.Prelude.{ℕ, ◌+◌, ◌-◌, ◌/◌, ◌%◌, ◌≤◌, ◌<◌, ◌≡◌, ◌⊎◌, inl, inr, arith, ltb, Bool-cases}
use picotm.Fildes.Seekbuf.{recoffset, reccount}

-- With records of 32 bytes, the lock of a region of at least one byte takes the record of the region's last
-- byte exactly if the offset in the first record and the length without its whole records are 32 together
-- at most. Otherwise the last byte is in the first record behind the locked ones.
pub reccount_lem :
    (off len : ℕ)
    → 0 < len
    → ((off % 32 + len % 32 ≤ 32) × ((off + len - 1) / 32 < recoffset 32 off + reccount 32 len))
      ⊎ ((32 < off % 32 + len % 32) × ((off + len - 1) / 32 ≡ recoffset 32 off + reccount 32 len))
unfolding recoffset reccount
reccount_lem off len pos = elim (Bool-cases (ltb 32 (off % 32 + len % 32))) [
  | inl late ↦ inr (ground arith, last (ground arith))
  | inr early ↦ inl (ground arith, ground arith)
]
  where
    last : 32 < off % 32 + len % 32 → (off + len - 1) / 32 ≡ off / 32 + (1 + len / 32)
    last h = omega arith
