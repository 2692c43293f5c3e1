-- ===== src/Core/Lock/Tests.antt =====
-- source/core/lock.c: two threads on one lock. The second reads, and then takes the lock to write.
use can_do.Base.{ℕ, ◌≡◌, ◌≢◌, refl, arith, replicate, [], ◌∷◌, ◌<◌, ◌^◌, zero, suc, get_or}
use can_do.Core.Lock.{
  claimed, alone, Thread, new_thread, CandoLockHeader, System, thread_of, goes, cando_lock_init,
  look, announce, admit, claim, drained, enter_first, IsReachable, begin, after,
}
use can_do.Core.Lock.Sound.{IsWithin, total, counted}
use can_do.Core.Lock.Exclusion.{Within, writer-excludes}

-- Sequential consistency, and a memory in which a load may return any value.
abbrev Last : ℕ → ℕ → Type 0
Last c v = c ≡ v

abbrev Anything : ℕ → ℕ → Type 0
Anything c v = Unit {0}

abbrev begun : System
begun = record { hdr = cando_lock_init; threads = replicate 2 new_thread }

abbrev second_claims : System
second_claims =
    goes begun 1 (record new_thread { phase = claimed }) (record cando_lock_init { lock_id = 2 })

abbrev second_alone : System
second_alone = goes second_claims 1 (record new_thread { phase = alone }) second_claims.hdr

abbrev second_writes : System
second_writes =
    goes second_alone 1 (record new_thread { writes = 1 })
      (record second_alone.hdr { write_depth = 1 })

writes-IsReachable : IsReachable Last (replicate 2 new_thread) second_writes
writes-IsReachable =
    after 1
      (after 1 (after 1 begin (omega arith) (claim refl refl)) (omega arith) (drained refl refl))
      (omega arith) (enter_first refl)

fits :
    (hdr : CandoLockHeader) (t : Thread)
    → counted t ≡ 0
    → t.writes < 2 ^ 32
    → IsWithin (record { hdr = hdr; threads = new_thread ∷ t ∷ [] })
unfolding total
fits hdr t c l = record { readers_fit = omega (arith, c); writers_fit = few t l }
  where
    few :
        (t : Thread)
        → t.writes < 2 ^ 32
        → (i : ℕ) → (get_or (new_thread ∷ t ∷ []) i new_thread).writes < 2 ^ 32
    few t l zero = omega arith
    few t l (suc zero) = l
    few t l (suc (suc i)) = omega arith

writes-Within : Within writes-IsReachable
unfolding Within writes-IsReachable
writes-Within =
    (((tt, fits _ _ refl (omega arith)), fits _ _ refl (omega arith)), fits _ _ refl (omega arith))

writer-excludes_example :
    ((thread_of second_writes 0).reads ≡ 0)
    × (◌≢◌ {A = ℕ} 1 0 → (thread_of second_writes 0).writes ≡ 0)
writer-excludes_example =
    writer-excludes {Seen = Last} (λ c v e. e) 2 second_writes writes-IsReachable writes-Within 1
      (omega arith) 0

-- The first thread announces itself, the second claims the lock; each then loads the old value of what
-- the other has written, and both enter.
abbrev BothEnter : Type 0
BothEnter = IsReachable Anything (replicate 2 new_thread) (record {
  hdr = record { lock_id = 2; readers = 1; write_depth = 1 };
  threads = record new_thread { reads = 1 } ∷ record new_thread { writes = 1 } ∷ [];
})

both_can_enter : BothEnter
both_can_enter =
    after 0
      (after 1
        (after 1
          (after 1
            (after 0 (after 0 begin (omega arith) (look refl tt)) (omega arith) (announce refl))
            (omega arith) (claim refl refl))
          (omega arith) (drained refl tt))
        (omega arith) (enter_first refl))
      (omega arith) (admit refl tt)
