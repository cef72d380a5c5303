-- ===== src/Rwlock/Exclusion.antt =====
-- src/picotm-lib-rwlock.c: what the byte says of the threads that hold the lock, in every state that any
-- interleaving reaches.
use picotm.Prelude.{
  ℕ, ◌+◌, ◌*◌, ◌≤◌, ◌<◌, ◌≡◌, ◌≢◌, refl, ap, ◌⊎◌, inl, inr, arith, ◌==◌, ne→==, Bool-cases, dec_lt,
}
use picotm.Prelude.Count.{update, count, count-update, count-ge, count-eq-zero}
use picotm.Rwlock.{rw_counter, rdlock_round, wrlock_round, uplock_round, unlock_amount, index_round}
use picotm.Rwlock.Threads.{
  Held, unlocked, rdlocked, wrlocked, Point, rest, rd_loop, wr_loop, up_loop, unlocking, ix_loop,
  Move, rd_load, rd_fail, rd_win, rd_lose, wr_load, wr_fail, wr_win, wr_lose, up_load, up_fail,
  up_win, up_again, up_lose, un_load, un_sub, ix_load, ix_fail, ix_win, ix_changed, ix_again,
  System, Step, move, init, Reach, start, later,
}

-- What a thread holds at a point. One that unlocks holds the lock until the subtraction.
abbrev pub held : Point → Held
held (rest h) = h
held (rd_loop n) = unlocked
held (wr_loop n) = unlocked
held (up_loop n) = rdlocked
held (unlocking h n) = h
held (ix_loop h from to n) = h

abbrev pub reads : Held → ℕ
reads rdlocked = 1
reads _ = 0

abbrev pub writes : Held → ℕ
writes wrlocked = 1
writes _ = 0

abbrev pub reader : Point → ℕ
reader p = reads (held p)

abbrev pub writer : Point → ℕ
writer p = writes (held p)

-- A thread that unlocks has read a counter that fits what it holds.
abbrev IsFresh : Point → Type 0
IsFresh (unlocking unlocked n) = ⊥
IsFresh (unlocking rdlocked n) = rw_counter n ≢ 15
IsFresh (unlocking wrlocked n) = rw_counter n ≡ 15
IsFresh _ = Unit {0}

-- The byte counts the readers `rs` and the writers `ws`.
record Counts (w rs ws : ℕ) : Type 0 where
  fits : w < 256
  counter : rw_counter w ≡ rs + 15 * ws
  few : rs ≤ 14
  exclusive : rs + 15 * ws ≤ 15

-- How the sums change when one thread goes from `p` to `p'`.
record Sums (rs ws rs' ws' : ℕ) (p p' : Point) : Type 0 where
  readers : rs' + reader p ≡ rs + reader p'
  writers : ws' + writer p ≡ ws + writer p'
  one_reader : reader p ≤ rs
  one_writer : writer p ≤ ws

Move-Counts :
    {rs ws rs' ws' w : ℕ} {p : Point} {w' : ℕ} {p' : Point}
    → Move w p w' p'
    → Counts w rs ws
    → Sums rs ws rs' ws' p p'
    → IsFresh p
    → Counts w' rs' ws'
unfolding rdlock_round wrlock_round uplock_round unlock_amount index_round
Move-Counts rd_load c s f = ground arith
Move-Counts (rd_fail e) c s f = ground arith
Move-Counts (rd_win e x) c s f = ground arith
Move-Counts (rd_lose e x) c s f = ground arith
Move-Counts wr_load c s f = ground arith
Move-Counts (wr_fail e) c s f = ground arith
Move-Counts (wr_win e x) c s f = ground arith
Move-Counts (wr_lose e x) c s f = ground arith
Move-Counts up_load c s f = ground arith
Move-Counts (up_fail e) c s f = ground arith
Move-Counts (up_win e x) c s f = ground arith
Move-Counts (up_again e x y) c s f = ground arith
Move-Counts (up_lose e x y) c s f = ground arith
Move-Counts (un_load {h = unlocked} e) c s f = ground arith
Move-Counts (un_load {h = rdlocked} e) c s f = ground arith
Move-Counts (un_load {h = wrlocked} e) c s f = ground arith
Move-Counts (un_sub {h = unlocked}) c s f = ground arith
Move-Counts (un_sub {h = rdlocked}) c s f = ground arith
Move-Counts (un_sub {h = wrlocked}) c s f = ground arith
Move-Counts (ix_load from to) c s f = ground arith
Move-Counts (ix_fail e) c s f = ground arith
Move-Counts (ix_win e x) c s f = ground arith
Move-Counts (ix_changed e x y) c s f = ground arith
Move-Counts (ix_again e x y) c s f = ground arith

Move-IsFresh :
    {rs ws w : ℕ} {p : Point} {w' : ℕ} {p' : Point}
    → Move w p w' p'
    → Counts w rs ws
    → reader p ≤ rs
    → writer p ≤ ws
    → IsFresh p'
Move-IsFresh (un_load {h = unlocked} e) c r v = absurd (e refl)
Move-IsFresh (un_load {h = rdlocked} e) c r v = omega arith
Move-IsFresh (un_load {h = wrlocked} e) c r v = omega arith
Move-IsFresh m c r v = tt

-- The byte counts the holders, in a state of `k` threads.
pub record Inv (k : ℕ) (s : System) : Type 0 where
  counts : Counts s.word (count reader k s.at) (count writer k s.at)
  fresh : (i : ℕ) → IsFresh (s.at i)

Step-Inv : {k : ℕ} {s t : System} → Step k s t → Inv k s → Inv k t
Step-Inv {k} {s} (move i {w} {p} lt m) v = record {
  counts =
      Move-Counts m v.counts
        (record {
          readers = count-update reader k s.at i p lt;
          writers = count-update writer k s.at i p lt;
          one_reader = count-ge reader k s.at i lt;
          one_writer = count-ge writer k s.at i lt;
        })
        (v.fresh i);
  fresh = λ j. update_fresh j;
}
  where
    next_fresh : IsFresh p
    next_fresh = Move-IsFresh m v.counts (count-ge reader k s.at i lt) (count-ge writer k s.at i lt)

    update_fresh : (j : ℕ) → IsFresh (update s.at i p j)
    update_fresh j = elim (Bool-cases (i == j)) [
      | inl e ↦ rw e next_fresh
      | inr e ↦ rw e (v.fresh j)
    ]

init-Inv : (k : ℕ) → Inv k init
init-Inv k = record {
  counts =
      rw (count-eq-zero reader k init.at (λ i. refl), count-eq-zero writer k init.at (λ i. refl))
        (omega arith);
  fresh = λ i. tt;
}

Reach-Inv : {k : ℕ} {s : System} → Reach k s → Inv k s
Reach-Inv {k} start = init-Inv k
Reach-Inv (later r st) = Step-Inv st (Reach-Inv r)

count-two :
    (w : Point → ℕ) (k : ℕ) (f : ℕ → Point) (i j : ℕ)
    → w (rest unlocked) ≡ 0
    → i < k
    → j < k
    → i ≢ j
    → w (f i) + w (f j) ≤ count w k f
count-two w k f i j z hi hj ne =
    let others : w (update f i (rest unlocked) j) ≤ count w k (update f i (rest unlocked)) =
      count-ge w k (update f i (rest unlocked)) j hj in
    let same : update f i (rest unlocked) j ≡ f j = rw (ne→== i j ne) in
    omega (arith, rw same at others, count-update w k f i (rest unlocked) hi, z)

-- In every state that the threads reach, whatever the order of their steps: while a thread holds the
-- lock for writing, no other thread holds it.
pub mutual_exclusion :
    {k : ℕ} {s : System} (i j : ℕ)
    → Reach k s
    → i < k
    → j < k
    → i ≢ j
    → held (s.at i) ≡ wrlocked
    → held (s.at j) ≡ unlocked
mutual_exclusion {k} {s} i j r hi hj ne w = alone (held (s.at j)) refl
  where
    open (Reach-Inv r) use {counts}

    one : writer (s.at i) ≡ 1
    one = ap writes w

    alone : (h : Held) → held (s.at j) ≡ h → held (s.at j) ≡ unlocked
    alone unlocked e = e
    alone rdlocked e = absurd (
        omega (
          arith,
          counts,
          one,
          ap reads e,
          count-ge writer k s.at i hi,
          count-ge reader k s.at j hj,
        ))
    alone wrlocked e =
        absurd (omega (arith, counts, one, ap writes e, count-two writer k s.at i j refl hi hj ne))

-- In every state that the threads reach, the counter of the byte is 15 if a thread holds the lock for
-- writing, and otherwise the number of the threads that hold it for reading, at most 14.
pub counter_lem :
    {k : ℕ} {s : System}
    → Reach k s
    → ((count writer k s.at ≡ 1) × (count reader k s.at ≡ 0) × (rw_counter s.word ≡ 15))
      ⊎ ((count writer k s.at ≡ 0)
          × (count reader k s.at ≤ 14)
          × (rw_counter s.word ≡ count reader k s.at))
counter_lem {k} {s} r = elim (dec_lt 0 (count writer k s.at)) [
  | yes h ↦ inl (omega (arith, v), omega (arith, v), omega (arith, v))
  | no h ↦ inr (omega (arith, v), omega (arith, v), omega (arith, v))
]
  where
    v : Counts s.word (count reader k s.at) (count writer k s.at)
    v = (Reach-Inv r).counts
