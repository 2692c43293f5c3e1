-- ===== src/Core/Lock/Sound.antt =====
-- source/core/lock.c: what a sound lock is, and that a step of one thread keeps the others sound.
use can_do.Base.{
  ℕ, zero, suc, ◌+◌, ◌-◌, ◌^◌, ◌≤◌, ◌<◌, ◌≡◌, ◌≢◌, refl, sym, ◌∙◌, ◌==◌, if◌then◌else◌, Bool, true,
  false, ◌||◌, ltb, List, [], ◌∷◌, arith, length, get_or, set, ℕ_discrete, inl, inr, ◌⊎◌,
}
use can_do.Base.Cells.{get_or-set}
use mathlib.Core.Path.{subst}
use can_do.Core.Lock.{
  CandoLockHeader, Phase, idle, looked, announced, backing, claimed, alone, leaving, Thread,
  new_thread, System, thread_of, goes, u32_inc, u32_dec,
}

-- What `readers` counts for a thread besides its read locks.
abbrev pub pending : Phase → ℕ
pending announced = 1
pending backing = 1
pending _ = 0

abbrev pub counted : Thread → ℕ
counted t = pending t.phase + t.reads

-- The thread is at work on the lock that it has claimed.
abbrev pub works : Phase → Bool
works claimed = true
works alone = true
works leaving = true
works _ = false

abbrev pub waits : Phase → Bool
waits alone = true
waits _ = false

abbrev pub owner : Thread → Bool
owner t = works t.phase || ltb 0 t.writes

abbrev pub exclusive : Thread → Bool
exclusive t = waits t.phase || ltb 0 t.writes

unfoldable pub total : List Thread → ℕ
total [] = 0
total (t ∷ ts) = counted t + total ts

-- The counters of the lock have not wrapped around: the read locks and the announcements of all threads
-- together are fewer than 2 ^ 32, and so are the write locks of each thread.
pub record IsWithin (s : System) : Type 0 where
  pub readers_fit : total s.threads < 2 ^ 32
  pub writers_fit : (i : ℕ) → (thread_of s i).writes < 2 ^ 32

pub record IsSound (s : System) : Type 0 where
  pub counts : s.hdr.readers ≡ total s.threads
  pub owns : (i : ℕ) → owner (thread_of s i) ≡ (s.hdr.lock_id == i + 1)
  pub settled : (i : ℕ) → works (thread_of s i).phase ≡ true → (thread_of s i).writes ≡ 0
  pub depth : (i : ℕ) → 0 < (thread_of s i).writes → s.hdr.write_depth ≡ (thread_of s i).writes
  pub apart : (i : ℕ) → exclusive (thread_of s i) ≡ true → (j : ℕ) → (thread_of s j).reads ≡ 0

waits-works : (p : Phase) (b : Bool) → (waits p || b) ≡ true → (works p || b) ≡ true
waits-works idle b e = e
waits-works looked b e = e
waits-works announced b e = e
waits-works backing b e = e
waits-works claimed b e = refl
waits-works alone b e = refl
waits-works leaving b e = refl

exclusive-owner : (t : Thread) → exclusive t ≡ true → owner t ≡ true
exclusive-owner t e = waits-works t.phase (ltb 0 t.writes) e

not_both : false ≡ true → ⊥
not_both e = ground (arith, e)

pub inc_lem : (n : ℕ) → n + 1 < 2 ^ 32 → u32_inc n ≡ n + 1
inc_lem n l = ground (arith, l)

pub dec_lem : (n : ℕ) → 0 < n → n < 2 ^ 32 → u32_dec n ≡ n - 1
dec_lem n p l = ground (arith, l)

total-set :
    (ts : List Thread) (i : ℕ) (t : Thread)
    → i < length ts
    → total (set ts i t) + counted (get_or ts i new_thread) ≡ total ts + counted t
unfolding total
total-set [] i t h = absurd (omega arith)
total-set (q ∷ ts) zero t h = omega arith
total-set (q ∷ ts) (suc i) t h = omega (arith, total-set ts i t (omega arith))

total_ge : (ts : List Thread) (i : ℕ) → counted (get_or ts i new_thread) ≤ total ts
unfolding total
total_ge [] i = omega arith
total_ge (q ∷ ts) zero = omega arith
total_ge (q ∷ ts) (suc i) = omega (arith, total_ge ts i)

module _ (s : System) (w : IsSound s) (i : ℕ) (il : i < length s.threads) where
  -- What holds of the thread that moves and of every other thread holds of all.
  all_threads :
      (t : Thread) (hdr : CandoLockHeader) (P : ℕ → Thread → Type 0)
      → P i t
      → ((j : ℕ) → i ≢ j → P j (thread_of s j))
      → (j : ℕ) → P j (thread_of (goes s i t hdr) j)
  all_threads t hdr P here others j =
      let e = get_or-set s.threads i j t new_thread il in
      subst (P j) (sym e) (elim (ℕ_discrete i j) [
        | yes q ↦
            let b : (i == j) ≡ true = ground (arith, q) in
            subst (λ (x : Bool). P j (if x then t else thread_of s j)) (sym b)
              (subst (λ (k : ℕ). P k t) q here)
        | no ne ↦
            let b : (i == j) ≡ false = ground (arith, ne) in
            subst (λ (x : Bool). P j (if x then t else thread_of s j)) (sym b) (others j ne)
      ])

  -- A step keeps the lock sound if it is sound for the thread that moves, and leaves alone what it
  -- means for the others.
  pub record IsSafe (t : Thread) (hdr : CandoLockHeader) : Type 0 where
    pub counts : hdr.readers + counted (thread_of s i) ≡ s.hdr.readers + counted t
    pub owns : owner t ≡ (hdr.lock_id == i + 1)
    pub same_owner : (j : ℕ) → i ≢ j → (s.hdr.lock_id == j + 1) ≡ (hdr.lock_id == j + 1)
    pub settled : works t.phase ≡ true → t.writes ≡ 0
    pub depth : 0 < t.writes → hdr.write_depth ≡ t.writes
    pub same_depth : (hdr.write_depth ≡ s.hdr.write_depth) ⊎ (owner (thread_of s i) ≡ true)
    pub apart : exclusive t ≡ true → (t.reads ≡ 0) × ((j : ℕ) → (thread_of s j).reads ≡ 0)
    pub same_reads : (t.reads ≤ (thread_of s i).reads) ⊎ (s.hdr.lock_id ≡ 0)

  not_writing : (j : ℕ) → s.hdr.lock_id ≢ j + 1 → (thread_of s j).writes ≡ 0
  not_writing j ne = ground (arith, w.owns j, ne)

  pub other_writes : owner (thread_of s i) ≡ true → (j : ℕ) → i ≢ j → (thread_of s j).writes ≡ 0
  other_writes o j ne =
      let mine : (s.hdr.lock_id == i + 1) ≡ true = sym (w.owns i) ∙ o in
      not_writing j (λ q. ground (arith, mine, q, ne))

  pub nobody_owns : s.hdr.lock_id ≡ 0 → (j : ℕ) → owner (thread_of s j) ≡ false
  nobody_owns free j = w.owns j ∙ ground (arith, free)

  reads_stay :
      (n : ℕ)
      → (n ≤ (thread_of s i).reads) ⊎ (s.hdr.lock_id ≡ 0)
      → (j : ℕ) → exclusive (thread_of s j) ≡ true
      → n ≡ 0
  reads_stay n same j e = elim same [
    | inl l ↦ omega (arith, l, w.apart j e i)
    | inr free ↦ absurd (not_both (sym (nobody_owns free j) ∙ exclusive-owner (thread_of s j) e))
  ]

  pub goes-IsSound : (t : Thread) (hdr : CandoLockHeader) → IsSafe t hdr → IsSound (goes s i t hdr)
  goes-IsSound t hdr f = record {
    counts = omega (arith, f.counts, w.counts, total-set s.threads i t il);
    owns =
        all_threads t hdr (λ j x. owner x ≡ (hdr.lock_id == j + 1)) f.owns
          (λ j ne. w.owns j ∙ f.same_owner j ne);
    settled =
        all_threads t hdr (λ j x. works x.phase ≡ true → x.writes ≡ 0) f.settled
          (λ j ne. w.settled j);
    depth =
        all_threads t hdr (λ j x. 0 < x.writes → hdr.write_depth ≡ x.writes) f.depth
          (λ j ne p. elim f.same_depth [
            | inl e ↦ e ∙ w.depth j p
            | inr o ↦ absurd (omega (arith, other_writes o j ne, p))
          ]);
    apart =
        all_threads t hdr
          (λ j x. exclusive x ≡ true → (k : ℕ) → (thread_of (goes s i t hdr) k).reads ≡ 0)
          (λ e. all_threads t hdr (λ k x. x.reads ≡ 0) (f.apart e).0 (λ k ne. (f.apart e).1 k))
          (λ j ne e.
            all_threads t hdr (λ k x. x.reads ≡ 0) (reads_stay t.reads f.same_reads j e)
              (λ k nk. w.apart j e k));
  }

  -- The number of readers is that of all threads, so that it does not wrap around.
  pub inc_readers :
      (t : Thread) (hdr : CandoLockHeader)
      → IsWithin (goes s i t hdr)
      → counted t ≡ counted (thread_of s i) + 1
      → u32_inc s.hdr.readers ≡ s.hdr.readers + 1
  inc_readers t hdr b c =
      inc_lem s.hdr.readers (omega (arith, w.counts, b.readers_fit, total-set s.threads i t il, c))

  pub dec_readers :
      IsWithin s → 0 < counted (thread_of s i) → u32_dec s.hdr.readers ≡ s.hdr.readers - 1
  dec_readers b p =
      dec_lem s.hdr.readers (omega (arith, w.counts, total_ge s.threads i, p))
        (omega (arith, w.counts, b.readers_fit))

  pub some_reader : 0 < counted (thread_of s i) → 0 < s.hdr.readers
  some_reader p = omega (arith, w.counts, total_ge s.threads i, p)

  pub no_reader : s.hdr.readers ≡ 0 → (j : ℕ) → (thread_of s j).reads ≡ 0
  no_reader e j = omega (arith, w.counts, total_ge s.threads j, e)
