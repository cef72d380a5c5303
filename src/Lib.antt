-- ===== src/Lib.antt =====
-- A model of picotm, a transaction manager in C, and the proofs of what it promises.
--
-- The program. A transaction runs the operations of several modules. A module registers call-backs with
-- the transaction, and appends an event to the transaction's log for every operation that must be
-- applied at commit or undone at rollback. Modules protect shared state with reader/writer locks; a lock
-- that cannot be had is a conflict, upon which the transaction rolls back and retries. The lock
-- manager keeps the lock owners, one for each transaction, and the one transaction that may run
-- irrevocably. The module txlib builds transactional data structures from all of these.
--
-- The files, and the code that they model (paths from the repository's root):
--   Error       include/picotm/picotm-error.h, picotm-error-base.h, src/picotm-error.c
--   Module      src/picotm_module.c: a module and its optional call-backs; `Run` is the state of the
--               program, of any type, together with the error that the functions share
--   Table       src/table.c: the growable arrays and the walks over them
--   Event, Log  src/picotm_event.c, src/picotm_log.c
--   Timespec    src/picotm_os_timespec.c: the arithmetic
--   Os          src/picotm_os_rwlock.c and the clock of src/picotm_os_timespec.c
--   LockOwner   src/picotm_lock_owner.c: the fields of the flags
--   LockManager src/picotm_lock_manager.c: the registry of the owners, irrevocability,
--               and in LockManager/Wake the wake-up of the owners that wait for a lock
--   Tx          src/picotm_tx.c: set-up, begin, commit, rollback and release; a function
--               picotm_tx_X() is `tx_X`
--   Rwlock      src/picotm-lib-rwlock.c, with Rwlock/State for src/picotm-lib-rwstate.c. One round of
--               each compare-exchange loop is a function, and Rwlock/Threads interleaves the rounds of
--               any number of threads as a step relation
--   TxLib       modules/txlib/src/txlib_tx.c: the append of events, and what the next two share
--   TxStack     modules/txlib/src/txstack_tx.c, with its events of txlib_event.c
--   TxQueue     modules/txlib/src/txqueue_tx.c, with its events of txlib_event.c
--   TxList      modules/txlib/src/txlist_entry.c, txlist_state.c and txlist_tx.c, with its events: lists of
--               pointers in a store of entries
--   Tm          modules/tm/src/page.c and vmem_tx.c: transactional loads and stores of memory, by pages
--               of eight bytes. Tm/Session runs the accesses of one transaction
--   Picotm      src/picotm.c, with the macros of include/picotm/picotm.h: `run_transaction` is a transaction
--               from picotm_begin to picotm_commit, with a body of user code as a parameter
--   Treemap     src/picotm-lib-treemap.c: maps from keys to values as trees of directories, and the depth
--               of src/picotm-lib-shared-treemap.c
--   Fildes      modules/libc/src/fildes/range.c, ioop.c and iooptab.c; Fildes/Seekbuf is seekbuf_tx.c and
--               part of seekbuf.c, Fildes/Regfile the reads and writes of regfile_tx.c, on system calls
--               that are a parameter. Fildes/Session runs the calls of one transaction
--   Tests       runs on concrete inputs
-- The files below a component hold its proofs.
--
-- Conventions. A function that takes an error parameter takes and returns the error, inside `Run` or
-- beside its result, and tests it where the source does. A pointer is a number or null. An array or a
-- chain of list nodes is a list. Functions of the C library and of POSIX threads (realloc, the clock,
-- pthread_rwlock_t) and the call-backs of modules are parameters.
--
-- Bounds and fuel. A transaction takes one unit of fuel for each execution of its body. A walk
-- over an array takes fuel, since a call-back that passes no element repeats for ever; the
-- transaction's call-backs pass one element unless they fail, and one unit of fuel more than there
-- are elements is enough. The attempt on a lock takes two rounds, since the second round ends it.
-- A range of memory takes as much fuel as it has bytes, a loop of reads or writes of a file more
-- than its bytes, a walk over a list more than its entries, and the growth of a tree map as much
-- as the prefix of the key that the tree does not have yet, which every level makes smaller. Sums
-- of sizes wrap at 2 ^ 64, the lock's byte at 2 ^ 8, and the fields of an owner's flags at 2 ^ 10.
-- Seconds are integers without a bound. A shift by 64 bits or more, which C does not define, is
-- excluded by hypotheses.
--
-- Not modelled: most assertions of the source, which are hypotheses where a theorem needs them; the
-- lists of waiters with the wait in the lock manager, which enters as a parameter of the attempt on a
-- lock; the set-up of thread-local state; in the memory module the copy between two ranges, the
-- search for a character, and the frame map, which is a parameter; the walk over a tree map and its
-- release; the other calls on files, the locks of their regions, which are a parameter, and the other
-- parts of the C library; the modules for mathematics and threads; transactional multisets; and the
-- memory order of atomic operations, which are taken as sequentially consistent.
pub mod Picotm
pub mod Prelude
pub mod Error
pub mod Module
pub mod Table
pub mod Event
pub mod Fildes
pub mod Log
pub mod Timespec
pub mod Os
pub mod LockOwner
pub mod LockManager
pub mod Tx
pub mod Rwlock
pub mod TxLib
pub mod TxList
pub mod TxStack
pub mod TxQueue
pub mod Tm
pub mod Treemap
pub mod Tests
