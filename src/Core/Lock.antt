-- ===== src/Core/Lock.antt =====
-- source/core/lock.c: the reader-writer lock as steps of several threads on one lock, one atomic access
-- each. Thread `i` of the list has the id `i + 1`, as 0 is no thread. A wait is a step that is absent
-- until its load returns what it waits for. The counters are u32 and wrap around.
mod Sound
mod Steps
pub mod Exclusion
mod Tests
use can_do.Base.{
  ℕ, zero, suc, ◌+◌, ◌-◌, ◌%◌, ◌^◌, ◌<◌, ◌≡◌, ◌≢◌, ◌==◌, if◌then◌else◌, List, length, get_or, set,
}

pub record CandoLockHeader : Type 0 where
  pub lock_id : ℕ
  pub readers : ℕ
  pub write_depth : ℕ

abbrev pub cando_lock_init : CandoLockHeader
cando_lock_init = record { lock_id = 0; readers = 0; write_depth = 0 }

-- Where a thread stands: in no operation; in cando_lock_read_acquire, where it has seen no writer, has
-- announced itself, or has to back off; in cando_lock_write_acquire, where it has claimed the lock, or
-- has seen the readers drained; or in cando_lock_write_release, before the last store.
pub data Phase : Type 0 where
  idle looked announced backing claimed alone leaving : Phase

-- A thread, with the read locks and the write locks that it holds: those acquired and not yet released.
pub record Thread : Type 0 where
  pub phase : Phase
  pub reads : ℕ
  pub writes : ℕ

abbrev pub new_thread : Thread
new_thread = record { phase = idle; reads = 0; writes = 0 }

pub record System : Type 0 where
  pub hdr : CandoLockHeader
  pub threads : List Thread

abbrev pub thread_of : System → ℕ → Thread
thread_of s i = get_or s.threads i new_thread

abbrev pub goes : System → ℕ → Thread → CandoLockHeader → System
goes s i t hdr = record { hdr = hdr; threads = set s.threads i t }

-- atomic_fetch_add and atomic_fetch_sub on a u32, by 1.
abbrev pub u32_inc : ℕ → ℕ
u32_inc n = (n + 1) % 2 ^ 32

abbrev pub u32_dec : ℕ → ℕ
u32_dec n = (n + (2 ^ 32 - 1)) % 2 ^ 32

-- One atomic access of thread `i`. `Seen c v`: a load of an atomic whose last value is `c` may return
-- `v`. A read-modify-write always acts on the last value. A reader that has backed off may look again, but
-- is not made to.
pub data Step (Seen : ℕ → ℕ → Type 0) (s : System) (i : ℕ) : System → Type 0 where
  look :
      (thread_of s i).phase ≡ idle
      → Seen s.hdr.lock_id 0
      → Step Seen s i (goes s i (record (thread_of s i) { phase = looked }) s.hdr)
  announce :
      (thread_of s i).phase ≡ looked
      → Step Seen s i (
          goes s i
            (record (thread_of s i) { phase = announced })
            (record s.hdr { readers = u32_inc s.hdr.readers }))
  admit :
      (thread_of s i).phase ≡ announced
      → Seen s.hdr.lock_id 0
      → Step Seen s i (
          goes s i
            (record (thread_of s i) { phase = idle; reads = (thread_of s i).reads + 1 })
            s.hdr)
  refuse :
      (id : ℕ)
      → (thread_of s i).phase ≡ announced
      → Seen s.hdr.lock_id id
      → id ≢ 0
      → Step Seen s i (goes s i (record (thread_of s i) { phase = backing }) s.hdr)
  back_off :
      (thread_of s i).phase ≡ backing
      → Step Seen s i (
          goes s i
            (record (thread_of s i) { phase = idle })
            (record s.hdr { readers = u32_dec s.hdr.readers }))
  read_release :
      (thread_of s i).phase ≡ idle
      → 0 < (thread_of s i).reads
      → Step Seen s i (
          goes s i
            (record (thread_of s i) { reads = (thread_of s i).reads - 1 })
            (record s.hdr { readers = u32_dec s.hdr.readers }))
  enter_again :
      (thread_of s i).phase ≡ idle
      → Seen s.hdr.lock_id (i + 1)
      → Step Seen s i (
          goes s i
            (record (thread_of s i) { writes = (thread_of s i).writes + 1 })
            (record s.hdr { write_depth = u32_inc s.hdr.write_depth }))
  claim :
      (thread_of s i).phase ≡ idle
      → s.hdr.lock_id ≡ 0
      → Step Seen s i
          (goes s i (record (thread_of s i) { phase = claimed }) (record s.hdr { lock_id = i + 1 }))
  drained :
      (thread_of s i).phase ≡ claimed
      → Seen s.hdr.readers 0
      → Step Seen s i (goes s i (record (thread_of s i) { phase = alone }) s.hdr)
  enter_first :
      (thread_of s i).phase ≡ alone
      → Step Seen s i (
          goes s i
            (record (thread_of s i) { phase = idle; writes = (thread_of s i).writes + 1 })
            (record s.hdr { write_depth = 1 }))
  write_release :
      (thread_of s i).phase ≡ idle
      → Seen s.hdr.lock_id (i + 1)
      → Step Seen s i (
          goes s i
            (record (thread_of s i) {
              phase = if s.hdr.write_depth == 1 then leaving else idle;
              writes = (thread_of s i).writes - 1;
            })
            (record s.hdr { write_depth = u32_dec s.hdr.write_depth }))
  leave :
      (thread_of s i).phase ≡ leaving
      → Step Seen s i
          (goes s i (record (thread_of s i) { phase = idle }) (record s.hdr { lock_id = 0 }))

-- The systems that some threads can reach from a new lock.
pub data IsReachable (Seen : ℕ → ℕ → Type 0) (start : List Thread) : System → Type 0 where
  begin : IsReachable Seen start (record { hdr = cando_lock_init; threads = start })
  after :
      {s o : System} (i : ℕ)
      → IsReachable Seen start s
      → i < length s.threads
      → Step Seen s i o
      → IsReachable Seen start o
