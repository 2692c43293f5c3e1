-- ===== src/Object/Fields/Probe.antt =====
-- Linear probing: where a key is found, and which slot an insertion gets. Positions are compared by
-- their distance from the start of a probe, round the end of the table.
use can_do.Base.{
  ℕ, zero, suc, ◌+◌, ◌-◌, ◌%◌, ◌^◌, ◌≤◌, ◌<◌, ◌≡◌, ◌≢◌, ◌⊎◌, inl, inr, refl, sym, ap, ◌∙◌, bit_and,
  leb, ◌==◌, if◌then◌else◌, ◌&&◌, List, [], ◌∷◌, some, arith, dec_lt, ℕ_discrete, length,
}
use can_do.Base.Bits.{bit_and-low_mask}
use native.Mathlib.Nat.{mod-eq_of_lt, mod_self}
use can_do.Object.Fields.{
  no_slot, tombstone, ObjSlot, slot_at, ptr_hash, home, next, probe, CdoObject, obj_lookup,
}

-- A capacity is a power of two that a 32-bit index can address.
pub record IsCap (cap : ℕ) : Type 0 where
  pub log : ℕ
  pub pow : cap ≡ 2 ^ log
  pub pos : 0 < cap
  pub word : cap < no_slot

masked : (x : ℕ) {cap : ℕ} → IsCap cap → bit_and x (cap - 1) ≡ x % cap
masked x c =
    ap (λ (t : ℕ). bit_and x (t - 1)) c.pow
    ∙ (bit_and-low_mask c.log x ∙ ap (λ (t : ℕ). x % t) (sym c.pow))

pub home-lt : (key : ℕ) {cap : ℕ} → IsCap cap → home key cap < cap
unfolding home
home-lt key c = omega (arith, masked (ptr_hash key) c, c.pos)

next_lem :
    (h : ℕ) {cap : ℕ} → IsCap cap → h < cap → next h cap ≡ (if h + 1 == cap then 0 else h + 1)
unfolding next
next_lem h {cap} c l = elim (dec_lt (h + 1) cap) [
  | yes inside ↦ ground (arith, inside, masked (h + 1) c, mod-eq_of_lt inside)
  | no last ↦
      let e : h + 1 ≡ cap = omega arith in
      ground (arith, e, masked (h + 1) c, ap (λ (t : ℕ). t % cap) e, mod_self cap)
]

-- How many steps lead from `start` to `i` in a table of `cap` slots.
unfoldable pub dist : ℕ → ℕ → ℕ → ℕ
dist start i cap = if leb start i then i - start else i + cap - start

pub dist-lt : (start i cap : ℕ) → start < cap → i < cap → dist start i cap < cap
unfolding dist
dist-lt start i cap s l = ground arith

pub dist-injective :
    (start i j cap : ℕ)
    → start < cap
    → i < cap
    → j < cap
    → dist start i cap ≡ dist start j cap
    → i ≡ j
unfolding dist
dist-injective start i j cap s l m e = ground arith

pub dist_self : (start cap : ℕ) → dist start start cap ≡ 0
unfolding dist
dist_self start cap = ground arith

-- One step on, or back at the start.
module _ (start h : ℕ) {cap : ℕ} (c : IsCap cap) (s : start < cap) (l : h < cap) where
  pub next-lt : next h cap < cap
  next-lt = ground (arith, next_lem h c l)

  pub dist-next :
      dist start h cap + 1 < cap
      → (dist start (next h cap) cap ≡ dist start h cap + 1) × (next h cap ≢ start)
  unfolding dist
  dist-next far = ground (arith, next_lem h c l)

  pub next_around : dist start h cap + 1 ≡ cap → next h cap ≡ start
  unfolding dist
  next_around e = ground (arith, next_lem h c l)

abbrev pub key_at : List ObjSlot → ℕ → ℕ
key_at slots i = (slot_at slots i).key

-- Each key stands in one slot, and no slot between its home and there is empty.
pub record IsProbed (slots : List ObjSlot) (cap : ℕ) : Type 0 where
  pub cap_ok : IsCap cap
  pub len : length slots ≡ cap
  pub unique :
      (i j : ℕ) → i < cap → j < cap → 1 < key_at slots i → key_at slots i ≡ key_at slots j → i ≡ j
  pub clear :
      (i j : ℕ)
      → i < cap
      → j < cap
      → 1 < key_at slots i
      → dist (home (key_at slots i) cap) j cap < dist (home (key_at slots i) cap) i cap
      → key_at slots j ≢ 0

-- Probing reads nothing of a slot but its key, and no key but those of live slots and NULL.
pub IsProbed_congr :
    (slots slots' : List ObjSlot) (cap : ℕ)
    → length slots' ≡ length slots
    → ((i : ℕ)
        → i < cap
        → (key_at slots' i ≡ key_at slots i) ⊎ ((key_at slots i ≢ 0) × (key_at slots' i ≡ 1)))
    → IsProbed slots cap
    → IsProbed slots' cap
IsProbed_congr slots slots' cap len same p = record {
  cap_ok = p.cap_ok;
  len = len ∙ p.len;
  unique = λ i j il jl alive e. ground (arith, same i il, same j jl, p.unique i j il jl, alive, e);
  clear = λ i j il jl alive d. ground (arith, same i il, same j jl, p.clear i j il jl, alive, d);
}

module _ (slots : List ObjSlot) {cap : ℕ} (c : IsCap cap) (key start : ℕ) (s : start < cap) where
  module _ {i : ℕ} (il : i < cap) (e : key_at slots i ≡ key) (live : 1 < key)
      (only : (j : ℕ) → j < cap → key_at slots j ≡ key → j ≡ i)
      (clear : (j : ℕ) → j < cap → dist start j cap < dist start i cap → key_at slots j ≢ 0) where
    probe_found :
        (fuel h tomb : ℕ)
        → h < cap
        → dist start h cap ≤ dist start i cap
        → dist start i cap < fuel + dist start h cap
        → probe slots cap key fuel h start tomb ≡ some (i, i)
    unfolding probe
    probe_found zero h tomb l near enough = absurd (omega arith)
    probe_found (suc fuel) h tomb l near enough =
        let t = dist-next start h c s l in
        ground (
          arith,
          e,
          live,
          only h l,
          clear h l,
          dist-injective start h i cap s l il,
          dist-lt start i cap s il,
          t,
          next-lt start h c s l,
          probe_found fuel (next h cap) tomb,
          probe_found fuel (next h cap) h,
        )

  -- What a failed lookup proposes: a free slot that probing for the key reaches, or none if every slot
  -- holds a key.
  pub data Proposal (p : ℕ) : Type 0 where
    free :
        p < cap
        → key_at slots p ≤ 1
        → ((j : ℕ) → j < cap → dist start j cap < dist start p cap → key_at slots j ≢ 0)
        → Proposal p
    full : p ≡ no_slot → ((j : ℕ) → j < cap → 1 < key_at slots j) → Proposal p

  -- The first tombstone seen before distance `d`, as the loop keeps it.
  record Seen (d tomb : ℕ) : Type 0 where
    nothing : tomb ≡ no_slot → (j : ℕ) → j < cap → dist start j cap < d → key_at slots j ≢ tombstone
    spot :
        tomb ≢ no_slot → (tomb < cap) × (key_at slots tomb ≡ tombstone) × (dist start tomb cap < d)

  keep_tomb : ℕ → ℕ → ℕ
  keep_tomb h tomb = if ((slot_at slots h).key == tombstone) && (tomb == no_slot) then h else tomb

  module _ (h : ℕ) (l : h < cap) where
    clear_more :
        key_at slots h ≢ 0
        → ((j : ℕ) → j < cap → dist start j cap < dist start h cap → key_at slots j ≢ 0)
        → (j : ℕ) → j < cap
        → dist start j cap < dist start h cap + 1
        → key_at slots j ≢ 0
    clear_more nonempty clear j jl near =
        ground (arith, clear j jl, dist-injective start j h cap s jl l)

    Seen-more :
        (tomb : ℕ) → Seen (dist start h cap) tomb → Seen (dist start h cap + 1) (keep_tomb h tomb)
    unfolding keep_tomb
    Seen-more tomb seen = record {
      nothing = λ e j jl near. ground (
        arith,
        e,
        seen.nothing,
        seen.nothing _ j jl,
        dist-injective start j h cap s jl l,
        c.word,
      );
      spot = λ ne. ground (arith, seen.spot, ne, l);
    }

    -- The probe ends at an empty slot.
    settle_empty :
        (tomb : ℕ)
        → key_at slots h ≡ 0
        → ((j : ℕ) → j < cap → dist start j cap < dist start h cap → key_at slots j ≢ 0)
        → Seen (dist start h cap) tomb
        → Proposal (if tomb == no_slot then h else tomb)
    settle_empty tomb e clear seen = elim (ℕ_discrete tomb no_slot) [
      | yes q ↦ rw q (free l (omega arith) clear)
      | no q ↦
          let (tl, dead, near) = seen.spot q in
          let pick : (if tomb == no_slot then h else tomb) ≡ tomb = ground arith in
          rw pick (free tl (omega arith) (λ j jl d. clear j jl (omega arith)))
    ]

  -- The probe has gone round.
  settle_full :
      (tomb : ℕ) → ((j : ℕ) → j < cap → key_at slots j ≢ 0) → Seen cap tomb → Proposal tomb
  settle_full tomb clear seen = elim (ℕ_discrete tomb no_slot) [
    | yes q ↦ full q (λ j jl.
        let live = clear j jl in
        let other = seen.nothing q j jl (dist-lt start j cap s jl) in omega arith)
    | no q ↦ let (tl, dead, near) = seen.spot q in free tl (omega arith) (λ j jl d. clear j jl)
  ]

  module _ (absent : (j : ℕ) → j < cap → key_at slots j ≢ key) where
    probe_absent :
        (fuel h tomb : ℕ)
        → h < cap
        → cap ≤ fuel + dist start h cap
        → ((j : ℕ) → j < cap → dist start j cap < dist start h cap → key_at slots j ≢ 0)
        → Seen (dist start h cap) tomb
        → (p : ℕ) × (probe slots cap key fuel h start tomb ≡ some (no_slot, p)) × Proposal p
    unfolding probe keep_tomb
    probe_absent zero h tomb l enough clear seen = absurd (omega (arith, dist-lt start h cap s l))
    probe_absent (suc fuel) h tomb l enough clear seen =
        let other = absent h l in
        elim (ℕ_discrete (key_at slots h) 0) [
          | yes e ↦ (
            (if tomb == no_slot then h else tomb),
            ground arith,
            settle_empty h l tomb e clear seen,
          )
          | no ne ↦
              let clear' = clear_more h l ne clear in
              let seen' = Seen-more h l tomb seen in
              elim (ℕ_discrete (dist start h cap + 1) cap) [
                | yes last ↦ (
                  keep_tomb h tomb,
                  ground (arith, next_around start h c s l last),
                  settle_full (keep_tomb h tomb)
                      (λ j jl. clear' j jl (omega (arith, dist-lt start j cap s jl)))
                      (rw last at seen'),
                )
                | no more ↦
                    let t = dist-next start h c s l (omega (arith, dist-lt start h cap s l)) in
                    let (p, run, ok) =
                      probe_absent fuel (next h cap) (keep_tomb h tomb) (next-lt start h c s l)
                        (omega (arith, t)) (rw t.0 clear') (rw t.0 seen') in
                    (p, ground (arith, run, t.1), ok)
              ]
        ]

seek_cons :
    (x : ObjSlot) (xs : List ObjSlot) (key j : ℕ)
    → j < length (x ∷ xs)
    → x.key ≢ key
    → ((i : ℕ) → i < length xs → key_at xs i ≢ key)
    → key_at (x ∷ xs) j ≢ key
seek_cons x xs key zero l ne rest = ne
seek_cons x xs key (suc j) l ne rest = rest j (omega arith)

-- The slot with a key, or a proof that there is none.
pub seek :
    (slots : List ObjSlot) (key : ℕ)
    → ((i : ℕ) × (i < length slots) × (key_at slots i ≡ key))
      ⊎ ((j : ℕ) → j < length slots → key_at slots j ≢ key)
seek [] key = inr (λ j l. absurd (omega arith))
seek (x ∷ xs) key = elim (ℕ_discrete x.key key) [
  | yes e ↦ inl (0, omega arith, e)
  | no ne ↦ elim (seek xs key) [
    | inl found ↦ inl (suc found.0, omega (arith, found.1), found.2)
    | inr none_left ↦ inr (λ j l. seek_cons x xs key j l ne none_left)
  ]
]

module _ (obj : CdoObject) (probed : IsProbed obj.slots obj.slot_cap) (key : ℕ) where
  pub start_lt : home key obj.slot_cap < obj.slot_cap
  start_lt = home-lt key probed.cap_ok

  -- A key that stands in slot `i` is found there.
  pub obj_lookup_found :
      (i : ℕ)
      → i < obj.slot_cap
      → key_at obj.slots i ≡ key
      → 1 < key
      → obj_lookup obj key ≡ some (i, i)
  unfolding obj_lookup
  obj_lookup_found i il e live =
      let start = home key obj.slot_cap in
      let zero_dist = dist_self start obj.slot_cap in
      let run =
        probe_found obj.slots probed.cap_ok key start start_lt il e live
          (λ j jl q. probed.unique j i jl il (omega arith) (q ∙ sym e))
          (λ j jl d. probed.clear i j il jl (omega arith) (rw e d)) obj.slot_cap start no_slot
          start_lt (omega arith) (omega (arith, dist-lt start i obj.slot_cap start_lt il)) in
      ground (arith, probed.cap_ok.pos, run)

  -- A key that stands nowhere is not found, and a free slot is proposed if there is one.
  pub obj_lookup_absent :
      ((j : ℕ) → j < obj.slot_cap → key_at obj.slots j ≢ key)
      → (p : ℕ) × (obj_lookup obj key ≡ some (no_slot, p))
        × Proposal obj.slots probed.cap_ok key (home key obj.slot_cap) start_lt p
  unfolding obj_lookup
  obj_lookup_absent absent =
      let start = home key obj.slot_cap in
      let zero_dist = dist_self start obj.slot_cap in
      let (p, run, ok) =
        probe_absent obj.slots probed.cap_ok key start start_lt absent obj.slot_cap start no_slot
          start_lt (omega arith) (λ j jl d. absurd (omega arith))
          (record { nothing = λ e j jl d. absurd (omega arith); spot = λ ne. absurd (ne refl) }) in
      (p, ground (arith, probed.cap_ok.pos, run), ok)
