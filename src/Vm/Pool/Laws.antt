-- ===== src/Vm/Pool/Laws.antt =====
-- What a constant's index names.
use can_do.Base.{
  ℕ, zero, suc, ◌+◌, ◌*◌, ◌%◌, ◌^◌, ◌≤◌, ◌<◌, ◌≡◌, refl, sym, ap, ◌∙◌, ltb, leb, ◌==◌,
  if◌then◌else◌, Bool, true, false, List, [], ◌∷◌, Option, none, some, arith, set, get_or, length,
  length-set, dec_lt, Bool-cases, inl, inr, ◌⊎◌,
}
use mathlib.Core.Option.{some-injective}
use can_do.Base.Cells.{get_or-set}
use can_do.Base.Doubling.{double_until_total}
use can_do.Vm.Chunk.{chunk_grow}
use can_do.Vm.Pool.{
  Const, other, ConstPool, shares, find_const, realloc_const, chunk_ensure_const,
  cando_chunk_add_const,
}

pub record IsPool (p : ConstPool) : Type 0 where
  pub cells : length p.constants ≡ p.const_cap
  pub used : p.const_count ≤ p.const_cap
  pub bound : p.const_count ≤ 65535

-- The constant at an index; what stands outside the block does not matter.
abbrev pub const_at : List Const → ℕ → Const
const_at cells i = get_or cells i (other 0)

length-realloc_const :
    (junk : ℕ → Const) (cells : List Const) (n : ℕ) → length (realloc_const junk cells n) ≡ n
unfolding realloc_const
length-realloc_const junk cells zero = refl
length-realloc_const junk [] (suc n) = ap suc (length-realloc_const junk [] n)
length-realloc_const junk (c ∷ cells) (suc n) = ap suc (length-realloc_const junk cells n)

const_at-realloc_const :
    (junk : ℕ → Const) (cells : List Const) (n i : ℕ)
    → i < length cells
    → i < n
    → const_at (realloc_const junk cells n) i ≡ const_at cells i
unfolding realloc_const
const_at-realloc_const junk cells zero i l m = absurd (omega (arith, m))
const_at-realloc_const junk [] (suc n) i l m = absurd (omega (arith, l))
const_at-realloc_const junk (c ∷ cells) (suc n) zero l m = refl
const_at-realloc_const junk (c ∷ cells) (suc n) (suc i) l m =
    const_at-realloc_const junk cells n i (omega (arith, l)) (omega (arith, m))

-- A constant that the search finds is in use and shares its place with the value.
find_const_found :
    (num_eq : ℕ → ℕ → Bool) (val : Const) (cells : List Const) (n i k : ℕ)
    → find_const num_eq val cells n i ≡ some k
    → (d : ℕ) × (k ≡ i + d) × (d < n) × (shares num_eq (const_at cells d) val ≡ true)
unfolding find_const
find_const_found num_eq val cells zero i k e = absurd (ground (arith, e))
find_const_found num_eq val [] (suc n) i k e = absurd (ground (arith, e))
find_const_found num_eq val (c ∷ cells) (suc n) i k e = elim (Bool-cases (shares num_eq c val)) [
  | inl y ↦
      (zero, (let q = some-injective i k (sym (rw y) ∙ e) in omega (arith, q)), omega arith, y)
  | inr miss ↦
      let (d, at, l, s) = find_const_found num_eq val cells n (i + 1) k (sym (rw miss) ∙ e) in
      (suc d, omega (arith, at), omega (arith, l), s)
]

-- A pool with room for one more and the same constants.
record Roomy (p q : ConstPool) : Type 0 where
  valid : IsPool q
  room : q.const_count < q.const_cap
  count : q.const_count ≡ p.const_count
  same : (i : ℕ) → i < p.const_count → const_at q.constants i ≡ const_at p.constants i

ensure-Roomy :
    (junk : ℕ → Const) (p : ConstPool)
    → IsPool p
    → (q : ConstPool) × (chunk_ensure_const junk p 1 ≡ some q) × Roomy p q
unfolding chunk_ensure_const chunk_grow
ensure-Roomy junk p w =
    let need = (p.const_count + 1) % 2 ^ 32 in
    let plain : need ≡ p.const_count + 1 = omega (arith, w.bound) in
    elim (dec_lt p.const_cap need) [
      | no fits ↦
          let skip : leb need p.const_cap ≡ true = ground (arith, fits) in
          (
            p,
            rw skip,
            record {
              valid = w;
              room = omega (arith, fits, plain);
              count = refl;
              same = λ i l. refl;
            },
          )
      | yes more ↦
          let step : leb need p.const_cap ≡ false = ground (arith, more) in
          let bound = w.bound in
          let start : 0 < (if ltb p.const_cap 8 then 8 else p.const_cap * 2 % 2 ^ 32) =
            ground (arith, more, plain, bound) in
          let (n, run, grown) =
            double_until_total 32 32 (chunk_grow p.const_cap) need start
              (omega (arith, start, plain, bound)) (omega (arith, plain, bound)) in
          let enough = grown.enough in
          (
            record p { constants = realloc_const junk p.constants n; const_cap = n },
            rw (step, run),
            record {
              valid = record {
                cells = length-realloc_const junk p.constants n;
                used = omega (arith, enough, plain);
                bound = bound;
              };
              room = omega (arith, enough, plain);
              count = refl;
              same = λ i l.
                  const_at-realloc_const junk p.constants n i (omega (arith, l, w.cells, w.used))
                    (omega (arith, l, enough, plain));
            },
          )
    ]

-- The index names the value, or one that is shared for it, and every constant keeps its index.
pub record Adds (num_eq : ℕ → ℕ → Bool) (p : ConstPool) (val : Const) (q : ConstPool) (idx : ℕ)
    : Type 0 where
  pub valid : IsPool q
  pub legal : idx < q.const_count
  pub names :
      (const_at q.constants idx ≡ val) ⊎ (shares num_eq (const_at q.constants idx) val ≡ true)
  pub same : (i : ℕ) → i < p.const_count → const_at q.constants i ≡ const_at p.constants i

module _ (junk : ℕ → Const) (num_eq : ℕ → ℕ → Bool) (p : ConstPool) (w : IsPool p) (val : Const)
    (free : p.const_count < 65535) where
  add_search :
      (r : Option ℕ)
      → find_const num_eq val p.constants p.const_count 0 ≡ r
      → (q : ConstPool) × (idx : ℕ) × (cando_chunk_add_const junk num_eq p val ≡ some (q, idx))
        × Adds num_eq p val q idx
  unfolding cando_chunk_add_const
  add_search (some k) e =
      let (d, at, l, s) = find_const_found num_eq val p.constants p.const_count 0 k e in
      let word : k % 2 ^ 16 ≡ k = omega (arith, at, l, free) in
      let pos : k % 2 ^ 16 ≡ d = omega (arith, at, l, free) in
      (
        p,
        k % 2 ^ 16,
        rw (cando_chunk_add_const, e),
        record {
          valid = w;
          legal = omega (arith, pos, l);
          names = inr (ap (λ (n : ℕ). shares num_eq (const_at p.constants n) val) pos ∙ s);
          same = λ i m. refl;
        },
      )
  add_search none e =
      let (b, run, r) = ensure-Roomy junk p w in
      let legal : ltb p.const_count 65535 ≡ true = ground (arith, free) in
      let count = r.count in
      let room : b.const_count < length b.constants = omega (arith, r.room, r.valid.cells) in
      let next : (b.const_count + 1) % 2 ^ 32 ≡ b.const_count + 1 = omega (arith, count, free) in
      let word : b.const_count % 2 ^ 16 ≡ b.const_count = omega (arith, count, free) in
      (
        record b {
          constants = set b.constants b.const_count val;
          const_count = (b.const_count + 1) % 2 ^ 32;
        },
        b.const_count % 2 ^ 16,
        rw (cando_chunk_add_const, e) (rw (legal, run)),
        record {
          valid = record {
            cells = length-set b.constants b.const_count val ∙ r.valid.cells;
            used = omega (arith, next, r.room);
            bound = omega (arith, next, count, free);
          };
          legal = omega (arith, next, word);
          names = inl (
              let g =
                get_or-set b.constants b.const_count (b.const_count % 2 ^ 16) val (other 0) room in
              ground (arith, g, word));
          same = λ i m.
              let g = get_or-set b.constants b.const_count i val (other 0) room in
              let ne : (b.const_count == i) ≡ false = ground (arith, m, count) in
              g ∙ rw ne (r.same i m);
        },
      )

  -- In a well-formed pool of fewer than 65535 constants, cando_chunk_add_const succeeds and keeps the
  -- pool well formed; the index names the value or an equal number or string, and every constant keeps
  -- its index.
  pub add_const-Adds :
      (q : ConstPool) × (idx : ℕ) × (cando_chunk_add_const junk num_eq p val ≡ some (q, idx))
      × Adds num_eq p val q idx
  add_const-Adds = add_search (find_const num_eq val p.constants p.const_count 0) refl
