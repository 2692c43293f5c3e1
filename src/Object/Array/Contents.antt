-- ===== src/Object/Array/Contents.antt =====
-- The abstract view of an array, the list of its elements, and what each growth step keeps of it.
use can_do.Base.{
  ℕ, ◌+◌, ◌-◌, ◌*◌, ◌^◌, ◌≤◌, ◌<◌, ◌≡◌, ◌≢◌, refl, sym, ap, ◌∙◌, ltb, ◌==◌, if◌then◌else◌, List,
  some, arith, dec_lt, length, get_or, take, length-take, lt→leb_false, le→leb,
}
use mathlib.Core.Option
use can_do.Base.Cells.{get_or-take, get_or_out}
use can_do.Base.Doubling.{double_until, double_until_total}
use can_do.Object.Value.{CdoValue, null}
use can_do.Object.Array.{
  CdoArray, realloc, fill_null, ensure_one, grow_to, rawset_grow, rawset_extend,
}
use can_do.Object.Array.Shift.{length-realloc, get_or-realloc, length-fill_null, get_or-fill_null}

pub record IsValid (a : CdoArray) : Type 0 where
  pub cells : length a.items ≡ a.items_cap
  pub fits : a.items_len ≤ a.items_cap
  pub word : a.items_cap < 2 ^ 32

abbrev pub contents : CdoArray → List CdoValue
contents a = take a.items_len a.items

pub length-contents : (a : CdoArray) → IsValid a → length (contents a) ≡ a.items_len
length-contents a v = omega (arith, length-take a.items_len a.items)

-- `b` has the elements of `a`, and a block with room for `need` of them.
pub record Grown (a : CdoArray) (need : ℕ) (b : CdoArray) : Type 0 where
  pub valid : IsValid b
  pub len : b.items_len ≡ a.items_len
  pub room : need ≤ b.items_cap
  pub flag : b.readonly ≡ a.readonly
  pub keeps : (i : ℕ) → i < a.items_len → get_or b.items i null ≡ get_or a.items i null

pub ensure_one-Grown :
    (junk : ℕ → CdoValue) (a : CdoArray)
    → IsValid a
    → a.items_len < 2 ^ 31
    → Grown a (a.items_len + 1) (ensure_one junk a)
unfolding ensure_one
ensure_one-Grown junk a v small = record {
  valid =
      ground (arith, length-realloc junk a.items 8, length-realloc junk a.items (a.items_cap * 2));
  len = ground arith;
  room = ground arith;
  flag = ground arith;
  keeps = λ i h.
      ground
        (arith, get_or-realloc junk a.items 8 i, get_or-realloc junk a.items (a.items_cap * 2) i);
}

-- A larger block keeps the elements.
grow_to-Grown :
    (junk : ℕ → CdoValue) (a : CdoArray) (n need : ℕ)
    → IsValid a
    → a.items_cap ≤ n
    → n < 2 ^ 32
    → need ≤ n
    → Grown a need (grow_to junk a n)
unfolding grow_to
grow_to-Grown junk a n need v more word room =
    let block = realloc junk a.items n in
    let len = length-realloc junk a.items n in
    let filled = length-fill_null (n - a.items_cap) a.items_cap block in
    record {
      valid = record { cells = omega (arith, len, filled); fits = omega arith; word = word };
      len = refl;
      room = room;
      flag = refl;
      keeps = λ i h. ground (
        arith,
        len,
        get_or-fill_null (n - a.items_cap) a.items_cap block i,
        get_or-realloc junk a.items n i,
      );
    }

get_or-grow_to :
    (junk : ℕ → CdoValue) (a : CdoArray) (n i : ℕ)
    → IsValid a
    → a.items_cap ≤ n
    → a.items_cap ≤ i
    → get_or (grow_to junk a n).items i null ≡ null
unfolding grow_to
get_or-grow_to junk a n i v le out =
    let block = realloc junk a.items n in
    let len = length-realloc junk a.items n in
    ground (
      arith,
      len,
      length-fill_null (n - a.items_cap) a.items_cap block,
      get_or-fill_null (n - a.items_cap) a.items_cap block i,
      get_or_out (fill_null (n - a.items_cap) a.items_cap block) i null,
    )

-- A 31-bit index is reached by doubling, and the block keeps its elements.
pub rawset_grow-Grown :
    (junk : ℕ → CdoValue) (a : CdoArray) (idx : ℕ)
    → IsValid a
    → idx < 2 ^ 31
    → (b : CdoArray) × (rawset_grow junk a idx ≡ some b)
      × Grown a (idx + 1) b
      × (get_or b.items idx null ≡ (if ltb idx a.items_cap then get_or a.items idx null else null))
unfolding rawset_grow
rawset_grow-Grown junk a idx v small = elim (dec_lt idx a.items_cap) [
  | yes inside ↦ (
    a,
    rw (lt→leb_false _ _ inside),
    record { valid = v; len = refl; room = omega arith; flag = refl; keeps = λ i h. refl },
    ground arith,
  )
  | no outside ↦ found (if a.items_cap == 0 then 8 else a.items_cap) refl outside
]
  where
    found :
        (start : ℕ)
        → start ≡ (if a.items_cap == 0 then 8 else a.items_cap)
        → ¬ (idx < a.items_cap)
        → (b : CdoArray) × (rawset_grow junk a idx ≡ some b)
          × Grown a (idx + 1) b
          × (get_or b.items idx null
              ≡ (if ltb idx a.items_cap then get_or a.items idx null else null))
    found start e outside =
        let pos : 0 < start = ground arith in
        let above : a.items_cap ≤ start = ground arith in
        let below : start < 2 ^ 32 = ground arith in
        let (n, run, g) =
          double_until_total 32 32 start (idx + 1) pos (omega arith) (omega arith) in
        (
          grow_to junk a n,
          rw (le→leb a.items_cap idx (omega arith)) (
              ap (Option.map (grow_to junk a))
                (ap (λ (t : ℕ). double_until 32 32 t (idx + 1)) (sym e) ∙ run)),
          grow_to-Grown junk a n (idx + 1) v (omega (arith, g.no_less)) (ground (arith, g.tight))
              g.enough,
          ground (arith, get_or-grow_to junk a n idx v (omega (arith, g.no_less))),
        )

-- Cells between the length and the index become null.
pub rawset_extend-Grown : (a : CdoArray) (idx : ℕ) → IsValid a → idx < a.items_cap → record {
  valid : IsValid (rawset_extend a idx);
  inside : idx < (rawset_extend a idx).items_len;
  flag : (rawset_extend a idx).readonly ≡ a.readonly;
  len : (rawset_extend a idx).items_len ≡ (if ltb idx a.items_len then a.items_len else idx + 1);
  reads :
      (i : ℕ)
      → i < (rawset_extend a idx).items_len
      → i ≢ idx
      → get_or (rawset_extend a idx).items i null ≡ get_or (contents a) i null;
}
unfolding rawset_extend
rawset_extend-Grown a idx v room =
    let n = idx - a.items_len in
    let filled = length-fill_null n a.items_len a.items in
    record {
      valid = ground (arith, filled);
      inside = ground arith;
      flag = ground arith;
      len = ground arith;
      reads = λ i h ne.
          ground (
            arith,
            get_or-fill_null n a.items_len a.items i,
            get_or-take a.items_len a.items i null,
          );
    }

-- The cell that `cdo_array_rawset_idx` releases, where the index lies beyond the elements: as it was,
-- or null if the block had to grow.
pub rawset_extend-cell :
    (a b : CdoArray) (idx : ℕ)
    → IsValid b
    → idx < b.items_cap
    → b.items_len ≡ a.items_len
    → get_or (rawset_extend b idx).items idx null ≡ get_or b.items idx null
unfolding rawset_extend
rawset_extend-cell a b idx v room len =
    ground (arith, get_or-fill_null (idx - b.items_len) b.items_len b.items idx)
