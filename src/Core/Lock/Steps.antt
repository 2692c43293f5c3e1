-- ===== src/Core/Lock/Steps.antt =====
-- source/core/lock.c: each step keeps the lock sound.
use can_do.Base.{
  ℕ, ◌^◌, ◌+◌, ◌-◌, ◌<◌, ◌≡◌, refl, ap, ◌∙◌, ◌==◌, if◌then◌else◌, Bool, true, false, arith, length,
  inl, inr, ◌↔◌, Bool-cases,
}
use mathlib.Core.Path.{subst}
use can_do.Base.Cells.{get_or-set}
use can_do.Core.Lock.{
  new_thread, CandoLockHeader, Phase, idle, looked, announced, backing, claimed, alone, leaving,
  Thread, System, thread_of, goes, u32_inc, u32_dec, Step, look, announce, admit, refuse, back_off,
  read_release, enter_again, claim, drained, enter_first, write_release, leave,
}
use can_do.Core.Lock.Sound.{
  pending, works, waits, exclusive, IsWithin, IsSound, IsSafe, goes-IsSound, nobody_owns,
  inc_readers, dec_readers, some_reader, no_reader, inc_lem, dec_lem,
}

module _ (s : System) (w : IsSound s) (i : ℕ) (il : i < length s.threads) where
  look-IsSafe :
      (thread_of s i).phase ≡ idle
      → s.hdr.lock_id ≡ 0
      → IsSafe s w i il (record (thread_of s i) { phase = looked }) s.hdr
  look-IsSafe e free = ground (
    arith,
    e,
    w.owns i,
    ap pending e,
    ap works e,
    ap waits e,
    w.settled i,
    w.depth i,
    w.apart i,
    (λ (x : exclusive (thread_of s i) ≡ true). w.apart i x i),
    nobody_owns s w i il free i,
  )

  announce-IsSafe :
      (thread_of s i).phase ≡ looked
      → IsWithin (
          goes s i
            (record (thread_of s i) { phase = announced })
            (record s.hdr { readers = u32_inc s.hdr.readers }))
      → IsSafe s w i il
          (record (thread_of s i) { phase = announced })
          (record s.hdr { readers = u32_inc s.hdr.readers })
  announce-IsSafe e b = ground (
    arith,
    e,
    w.owns i,
    ap pending e,
    ap works e,
    ap waits e,
    w.settled i,
    w.depth i,
    w.apart i,
    (λ (x : exclusive (thread_of s i) ≡ true). w.apart i x i),
    inc_readers s w i il _ _ b (ground (arith, ap pending e)),
  )

  admit-IsSafe :
      (thread_of s i).phase ≡ announced
      → s.hdr.lock_id ≡ 0
      → IsSafe s w i il
          (record (thread_of s i) { phase = idle; reads = (thread_of s i).reads + 1 })
          s.hdr
  admit-IsSafe e free = ground (
    arith,
    e,
    w.owns i,
    ap pending e,
    ap works e,
    ap waits e,
    w.settled i,
    w.depth i,
    w.apart i,
    (λ (x : exclusive (thread_of s i) ≡ true). w.apart i x i),
    nobody_owns s w i il free i,
    free,
    nobody_owns s w i il free,
  )

  refuse-IsSafe :
      (thread_of s i).phase ≡ announced
      → IsSafe s w i il (record (thread_of s i) { phase = backing }) s.hdr
  refuse-IsSafe e = ground (
    arith,
    e,
    w.owns i,
    ap pending e,
    ap works e,
    ap waits e,
    w.settled i,
    w.depth i,
    w.apart i,
    (λ (x : exclusive (thread_of s i) ≡ true). w.apart i x i),
  )

  back_off-IsSafe :
      (thread_of s i).phase ≡ backing
      → IsWithin s
      → IsSafe s w i il
          (record (thread_of s i) { phase = idle })
          (record s.hdr { readers = u32_dec s.hdr.readers })
  back_off-IsSafe e b = ground (
    arith,
    e,
    w.owns i,
    ap pending e,
    ap works e,
    ap waits e,
    w.settled i,
    w.depth i,
    w.apart i,
    (λ (x : exclusive (thread_of s i) ≡ true). w.apart i x i),
    dec_readers s w i il b (ground (arith, ap pending e)),
    some_reader s w i il (ground (arith, ap pending e)),
  )

  read_release-IsSafe :
      (thread_of s i).phase ≡ idle
      → 0 < (thread_of s i).reads
      → IsWithin s
      → IsSafe s w i il
          (record (thread_of s i) { reads = (thread_of s i).reads - 1 })
          (record s.hdr { readers = u32_dec s.hdr.readers })
  read_release-IsSafe e p b = ground (
    arith,
    e,
    w.owns i,
    ap pending e,
    ap works e,
    ap waits e,
    w.settled i,
    w.depth i,
    w.apart i,
    (λ (x : exclusive (thread_of s i) ≡ true). w.apart i x i),
    p,
    dec_readers s w i il b (omega (arith, p)),
    some_reader s w i il (omega (arith, p)),
  )

  enter_again-IsSafe :
      (thread_of s i).phase ≡ idle
      → s.hdr.lock_id ≡ i + 1
      → (thread_of s i).writes + 1 < 2 ^ 32
      → IsSafe s w i il
          (record (thread_of s i) { writes = (thread_of s i).writes + 1 })
          (record s.hdr { write_depth = u32_inc s.hdr.write_depth })
  enter_again-IsSafe e mine b = ground (
    arith,
    e,
    w.owns i,
    ap pending e,
    ap works e,
    ap waits e,
    w.settled i,
    w.depth i,
    w.apart i,
    (λ (x : exclusive (thread_of s i) ≡ true). w.apart i x i),
    mine,
    b,
    inc_lem (thread_of s i).writes b,
  )

  claim-IsSafe :
      (thread_of s i).phase ≡ idle
      → s.hdr.lock_id ≡ 0
      → IsSafe s w i il
          (record (thread_of s i) { phase = claimed })
          (record s.hdr { lock_id = i + 1 })
  claim-IsSafe e free = ground (
    arith,
    e,
    w.owns i,
    ap pending e,
    ap works e,
    ap waits e,
    w.settled i,
    w.depth i,
    w.apart i,
    (λ (x : exclusive (thread_of s i) ≡ true). w.apart i x i),
    nobody_owns s w i il free i,
    free,
  )

  drained-IsSafe :
      (thread_of s i).phase ≡ claimed
      → s.hdr.readers ≡ 0
      → IsSafe s w i il (record (thread_of s i) { phase = alone }) s.hdr
  drained-IsSafe e empty = ground (
    arith,
    e,
    w.owns i,
    ap pending e,
    ap works e,
    ap waits e,
    w.settled i,
    w.depth i,
    w.apart i,
    (λ (x : exclusive (thread_of s i) ≡ true). w.apart i x i),
    empty,
    no_reader s w i il empty,
    no_reader s w i il empty i,
  )

  enter_first-IsSafe :
      (thread_of s i).phase ≡ alone
      → IsSafe s w i il
          (record (thread_of s i) { phase = idle; writes = (thread_of s i).writes + 1 })
          (record s.hdr { write_depth = 1 })
  enter_first-IsSafe e = ground (
    arith,
    e,
    w.owns i,
    ap pending e,
    ap works e,
    ap waits e,
    w.settled i,
    w.depth i,
    w.apart i,
    (λ (x : exclusive (thread_of s i) ≡ true). w.apart i x i),
  )

  leave-IsSafe :
      (thread_of s i).phase ≡ leaving
      → IsSafe s w i il (record (thread_of s i) { phase = idle }) (record s.hdr { lock_id = 0 })
  leave-IsSafe e = ground (
    arith,
    e,
    w.owns i,
    ap pending e,
    ap works e,
    ap waits e,
    w.settled i,
    w.depth i,
    w.apart i,
    (λ (x : exclusive (thread_of s i) ≡ true). w.apart i x i),
  )

  -- A thread that releases a write lock holds one, and counts in `write_depth` those that it holds.
  releases :
      (thread_of s i).phase ≡ idle
      → s.hdr.lock_id ≡ i + 1
      → (0 < (thread_of s i).writes) × (s.hdr.write_depth ≡ (thread_of s i).writes)
  releases e mine =
      let p : 0 < (thread_of s i).writes = ground (arith, mine, w.owns i, ap works e) in
      (p, w.depth i p)

  released-IsSafe :
      (p : Phase)
      → (thread_of s i).phase ≡ idle
      → s.hdr.lock_id ≡ i + 1
      → (thread_of s i).writes < 2 ^ 32
      → waits p ≡ false
      → pending p ≡ 0
      → (works p ≡ true) ↔ ((thread_of s i).writes ≡ 1)
      → IsSafe s w i il
          (record (thread_of s i) { phase = p; writes = (thread_of s i).writes - 1 })
          (record s.hdr { write_depth = u32_dec s.hdr.write_depth })
  released-IsSafe p e mine b quiet uncounted last = ground (
    arith,
    e,
    w.owns i,
    ap pending e,
    ap works e,
    ap waits e,
    w.depth i,
    w.apart i,
    (λ (x : exclusive (thread_of s i) ≡ true). w.apart i x i),
    mine,
    b,
    quiet,
    uncounted,
    last.0,
    last.1,
    releases e mine,
    dec_lem (thread_of s i).writes (releases e mine).0 b,
  )

  write_release-IsSafe :
      (thread_of s i).phase ≡ idle
      → s.hdr.lock_id ≡ i + 1
      → (thread_of s i).writes < 2 ^ 32
      → IsSafe s w i il
          (record (thread_of s i) {
            phase = if s.hdr.write_depth == 1 then leaving else idle;
            writes = (thread_of s i).writes - 1;
          })
          (record s.hdr { write_depth = u32_dec s.hdr.write_depth })
  write_release-IsSafe e mine b =
      let d = (releases e mine).1 in
      elim (Bool-cases (s.hdr.write_depth == 1)) [
        | inl c ↦
            rw c (released-IsSafe leaving e mine b refl refl (λ q. ground (arith, c, d), λ q. refl))
        | inr c ↦ rw c (
            released-IsSafe idle e mine b refl refl
              (λ q. ground (arith, q), λ q. ground (arith, c, d, q)))
      ]

mine_fits :
    (s : System) (i : ℕ) (t : Thread) (hdr : CandoLockHeader)
    → i < length s.threads
    → IsWithin (goes s i t hdr)
    → t.writes < 2 ^ 32
mine_fits s i t hdr il c =
    let here : (b : Bool) → b ≡ true → (if b then t else thread_of s i) ≡ t = λ b e. rw e in
    subst (λ (x : Thread). x.writes < 2 ^ 32)
      (get_or-set s.threads i i t new_thread il ∙ here (i == i) (ground arith)) (c.writers_fit i)

-- Each step keeps a sound lock sound, if loads return the last value and no counter wraps around.
pub Step-IsSound :
    {Seen : ℕ → ℕ → Type 0}
    → ((c v : ℕ) → Seen c v → c ≡ v)
    → (s : System) (i : ℕ) (o : System) → IsSound s
    → i < length s.threads
    → IsWithin s
    → IsWithin o
    → Step Seen s i o
    → IsSound o
Step-IsSound fresh s i o w il b c (look e v) =
    goes-IsSound s w i il _ _ (look-IsSafe s w i il e (fresh _ _ v))
Step-IsSound fresh s i o w il b c (announce e) =
    goes-IsSound s w i il _ _ (announce-IsSafe s w i il e c)
Step-IsSound fresh s i o w il b c (admit e v) =
    goes-IsSound s w i il _ _ (admit-IsSafe s w i il e (fresh _ _ v))
Step-IsSound fresh s i o w il b c (refuse id e v held) =
    goes-IsSound s w i il _ _ (refuse-IsSafe s w i il e)
Step-IsSound fresh s i o w il b c (back_off e) =
    goes-IsSound s w i il _ _ (back_off-IsSafe s w i il e b)
Step-IsSound fresh s i o w il b c (read_release e p) =
    goes-IsSound s w i il _ _ (read_release-IsSafe s w i il e p b)
Step-IsSound fresh s i o w il b c (enter_again e v) =
    goes-IsSound s w i il _ _ (enter_again-IsSafe s w i il e (fresh _ _ v) (mine_fits s i _ _ il c))
Step-IsSound fresh s i o w il b c (claim e free) =
    goes-IsSound s w i il _ _ (claim-IsSafe s w i il e free)
Step-IsSound fresh s i o w il b c (drained e v) =
    goes-IsSound s w i il _ _ (drained-IsSafe s w i il e (fresh _ _ v))
Step-IsSound fresh s i o w il b c (enter_first e) =
    goes-IsSound s w i il _ _ (enter_first-IsSafe s w i il e)
Step-IsSound fresh s i o w il b c (write_release e v) =
    goes-IsSound s w i il _ _ (write_release-IsSafe s w i il e (fresh _ _ v) (b.writers_fit i))
Step-IsSound fresh s i o w il b c (leave e) = goes-IsSound s w i il _ _ (leave-IsSafe s w i il e)
