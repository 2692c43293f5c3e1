-- ===== src/Core/Lock/Exclusion.antt =====
-- source/core/lock.c: mutual exclusion by induction on the steps.
use can_do.Base.{
  ℕ, zero, suc, ◌+◌, ◌<◌, ◌≡◌, ◌≢◌, refl, sym, ap, ◌∙◌, ◌==◌, true, List, arith, replicate,
}
use can_do.Base.Cells.{get_or-replicate}
use can_do.Core.Lock.{
  Thread, new_thread, System, thread_of, cando_lock_init, IsReachable, begin, after,
}
use can_do.Core.Lock.Sound.{total, owner, IsWithin, IsSound}
use can_do.Core.Lock.Steps.{Step-IsSound}

-- No counter has wrapped around in any system of a path.
unfoldable pub Within :
    {Seen : ℕ → ℕ → Type 0} {n : List Thread} {s : System} → IsReachable Seen n s → Type 0
Within (begin) = Unit {0}
Within (after {o = o} i path l step) = Within path × IsWithin o

total-replicate : (n : ℕ) → total (replicate n new_thread) ≡ 0
unfolding total
total-replicate zero = refl
total-replicate (suc n) = omega (arith, total-replicate n)

begin-IsSound :
    (n : ℕ) → IsSound (record { hdr = cando_lock_init; threads = replicate n new_thread })
begin-IsSound n =
    let e = λ (i : ℕ). get_or-replicate n i new_thread in
    record {
      counts = sym (total-replicate n);
      owns = λ i. ap owner (e i) ∙ ground arith;
      settled = λ i p. ap (λ (t : Thread). t.writes) (e i);
      depth = λ i p. sym (ap (λ (t : Thread). t.writes) (e i));
      apart = λ i p j. ap (λ (t : Thread). t.reads) (e j);
    }

begin-IsWithin :
    (n : ℕ) → IsWithin (record { hdr = cando_lock_init; threads = replicate n new_thread })
begin-IsWithin n = record {
  readers_fit = omega (arith, total-replicate n);
  writers_fit = λ i. omega (arith, ap (λ (t : Thread). t.writes) (get_or-replicate n i new_thread));
}

module _ {Seen : ℕ → ℕ → Type 0} (n : ℕ) where
  path-IsWithin :
      (s : System) (path : IsReachable Seen (replicate n new_thread) s) → Within path → IsWithin s
  unfolding Within
  path-IsWithin s begin b = begin-IsWithin n
  path-IsWithin s (after i path l step) b = b.1

  path-IsSound :
      ((c v : ℕ) → Seen c v → c ≡ v)
      → (s : System) (path : IsReachable Seen (replicate n new_thread) s) → Within path
      → IsSound s
  unfolding Within
  path-IsSound fresh s begin b = begin-IsSound n
  path-IsSound fresh s (after {s = r} i path l step) b =
      Step-IsSound fresh r i s (path-IsSound fresh r path b.0) l (path-IsWithin r path b.0) b.1 step

-- Whatever steps `n` threads have made on a new lock, while a thread holds a write lock no thread holds
-- a read lock, and no other thread holds a write lock. This is for memory in which a load returns the
-- last value of the atomic, which is more than the acquire loads of lock.c ask for; and for a path on
-- which the read locks and announcements together stay below 2 ^ 32, and the write locks of a thread too.
pub writer-excludes :
    {Seen : ℕ → ℕ → Type 0}
    → ((c v : ℕ) → Seen c v → c ≡ v)
    → (n : ℕ) (s : System) (path : IsReachable Seen (replicate n new_thread) s) → Within path
    → (i : ℕ) → 0 < (thread_of s i).writes
    → (j : ℕ) → ((thread_of s j).reads ≡ 0) × (i ≢ j → (thread_of s j).writes ≡ 0)
writer-excludes fresh n s path b i p j =
    let w = path-IsSound n fresh s path b in
    let mine : (s.hdr.lock_id == i + 1) ≡ true = ground (arith, w.owns i, p) in
    (w.apart i (ground (arith, p)) j, λ ne. ground (arith, mine, w.owns j, ne))
