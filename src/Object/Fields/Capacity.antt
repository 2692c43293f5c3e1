-- ===== src/Object/Fields/Capacity.antt =====
-- obj_ensure_capacity: afterwards there is room for one more field, and the fields are as they were.
use can_do.Base.{
  ℕ, suc, ◌+◌, ◌*◌, ◌^◌, ◌≤◌, ◌<◌, ◌≡◌, ◌≢◌, ◌⊎◌, inl, inr, refl, sym, ap, ◌∙◌, ltb, ◌==◌,
  if◌then◌else◌, Bool, true, false, ◌||◌, List, [], ◌∷◌, some, arith, length, replicate,
  length-replicate, Bool-cases,
}
use native.Mathlib.Nat.{pow-suc}
use can_do.Base.Cells.{get_or-replicate}
use mathlib.Core.Option
use can_do.Object.Fields.{
  no_slot, u32, ObjSlot, fresh_slot, CdoObject, Ring, rehash_from, obj_rehash, with_ring,
  enough_cap, obj_ensure_capacity,
}
use can_do.Object.Fields.Probe.{key_at, IsCap, IsProbed}
use can_do.Object.Fields.Order.{In, Linked-live, Field}
use can_do.Object.Fields.Rehash.{Fresh, rehash_from_lem}
use can_do.Object.Fields.Models.{count_tombs, Models}

-- The bound on tables below which no 32-bit product of the code wraps.
abbrev pub max_cap : ℕ
max_cap = 2 ^ 29

-- There was room for one more field and the table is the same, or there was none, and the capacity has
-- doubled, from 8 slots on.
abbrev pub Grows : CdoObject → CdoObject → Type 0
Grows obj o =
    ((obj.field_count + obj.tombstone_count + 1) * 4 ≤ obj.slot_cap * 3) × (o ≡ obj)
    ⊎ (obj.slot_cap * 3 < (obj.field_count + obj.tombstone_count + 1) * 4)
      × (o.slot_cap ≡ (if obj.slot_cap == 0 then 8 else obj.slot_cap * 2))

-- An object with the same fields and room for one more.
pub record Roomy (obj : CdoObject) (fields : List Field) (o : CdoObject) : Type 0 where
  pub models : Models o fields
  pub probed : IsProbed o.slots o.slot_cap
  pub room : (o.field_count + o.tombstone_count + 1) * 4 ≤ o.slot_cap * 3
  pub same : (o.kind ≡ obj.kind) × (o.readonly ≡ obj.readonly) × (o.items_len ≡ obj.items_len)
  pub bound : o.slot_cap ≤ 2 * obj.slot_cap + 8
  pub grows : Grows obj o

abbrev empty_ring : ℕ → Ring
empty_ring n = record { slots = replicate n fresh_slot; head = no_slot; tail = no_slot }

empty_key : (n j : ℕ) → key_at (replicate n fresh_slot) j ≡ 0
empty_key n j = ap (λ (s : ObjSlot). s.key) (get_or-replicate n j fresh_slot)

empty-Fresh : (n : ℕ) → IsCap n → Fresh (empty_ring n) n []
empty-Fresh n c = record {
  order = record {
    linked = tt;
    distinct = tt;
    starts = refl;
    ends = refl;
    covers = λ i l alive. absurd (omega (arith, alive, empty_key n i));
  };
  probed = record {
    cap_ok = c;
    len = length-replicate n fresh_slot;
    unique = λ i j il jl alive. absurd (omega (arith, alive, empty_key n i));
    clear = λ i j il jl alive. absurd (omega (arith, alive, empty_key n i));
  };
  no_tombs = λ j jl e. absurd (omega (arith, e, empty_key n j));
}

count_tombs-eq-zero :
    (slots : List ObjSlot)
    → ((j : ℕ) → j < length slots → key_at slots j ≢ 1)
    → count_tombs slots ≡ 0
unfolding count_tombs
count_tombs-eq-zero [] h = refl
count_tombs-eq-zero (s ∷ slots) h =
    let here = h 0 (omega arith) in
    let rest = count_tombs-eq-zero slots (λ j l. h (suc j) (omega arith)) in
    ground (arith, here, rest)

enough_cap_done :
    (fields fuel n : ℕ)
    → n * 3 < 2 ^ 32
    → (fields + 1) * 4 ≤ n * 3
    → enough_cap fields (suc fuel) n ≡ some n
unfolding enough_cap
enough_cap_done fields fuel n fits load =
    let t : ltb (u32 (n * 3)) (u32 ((fields + 1) * 4)) ≡ false = ground arith in rw t

crowded_bounds :
    (c fields tombs : ℕ)
    → c ≤ max_cap
    → (fields + tombs) * 4 ≤ c * 3
    → (c == 0) || ltb (u32 (c * 3)) (u32 ((fields + tombs + 1) * 4)) ≡ false
    → (0 < c) × ((fields + tombs + 1) * 4 ≤ c * 3)
crowded_bounds c fields tombs small load e = ground arith

crowded_load :
    (c fields tombs : ℕ)
    → c ≤ max_cap
    → (fields + tombs) * 4 ≤ c * 3
    → (c == 0) || ltb (u32 (c * 3)) (u32 ((fields + tombs + 1) * 4)) ≡ true
    → c * 3 < (fields + tombs + 1) * 4
crowded_load c fields tombs small load e = ground arith

grown_bounds :
    (c fields tombs : ℕ)
    → c ≤ max_cap
    → (fields + tombs) * 4 ≤ c * 3
    → let g = (if c == 0 then 8 else u32 (c * 2)) in
      ((fields + 1) * 4 ≤ g * 3) × (g ≤ 2 * c + 8) × (fields < g) × (g * 3 < 2 ^ 32)
grown_bounds c fields tombs small load = ground arith

module _ {obj : CdoObject} {fields : List Field} (m : Models obj fields) where
  pub length_lt : length obj.slots < no_slot
  length_lt = elim m.shape [
    | inl (none_yet, e) ↦ omega (arith, ap length e)
    | inr p ↦ omega (arith, p.len, p.cap_ok.word)
  ]

  keys_distinct :
      (i j : ℕ) → In i m.order → In j m.order → key_at obj.slots i ≡ key_at obj.slots j → i ≡ j
  keys_distinct i j x y e =
      let a = Linked-live obj.slots no_slot i m.order m.is_order.linked x in
      let b = Linked-live obj.slots no_slot j m.order m.is_order.linked y in
      elim m.shape [
        | inl (none_yet, q) ↦ absurd (omega (arith, a, ap length q))
        | inr p ↦ p.unique i j (omega (arith, a, p.len)) (omega (arith, b, p.len)) a.1 e
      ]

  -- A rehash to a larger capacity keeps the fields and their order.
  pub obj_rehash-Models :
      (n : ℕ)
      → IsCap n
      → obj.field_count < n
      → obj.field_count * 4 ≤ n * 3
      → (o : CdoObject) × (obj_rehash obj n ≡ some o)
        × Models o fields
        × IsProbed o.slots o.slot_cap
        × (o.slot_cap ≡ n)
        × (o.tombstone_count ≡ 0)
        × (o.field_count ≡ obj.field_count)
        × (o.kind ≡ obj.kind)
        × (o.readonly ≡ obj.readonly)
        × (o.items_len ≡ obj.items_len)
  unfolding obj_rehash
  obj_rehash-Models n c small load =
      let (r, M, run, f, len, reads) =
        rehash_from_lem obj.slots c obj.slot_cap no_slot m.order (empty_ring n) [] m.is_order.linked
          length_lt m.is_order.distinct keys_distinct (omega (arith, m.load, m.count))
          (omega (arith, m.count)) (empty-Fresh n c)
          (λ i j x jl e.
            let k = Linked-live obj.slots no_slot i m.order m.is_order.linked x in
            omega (arith, k, empty_key n j)) in
      let go : rehash_from obj.slots n obj.slot_cap obj.fifo_head (empty_ring n) ≡ some r =
        ap (λ (t : ℕ). rehash_from obj.slots n obj.slot_cap t (empty_ring n)) m.is_order.starts
        ∙ run in
      (
        with_ring obj n r,
        ap (Option.map (with_ring obj n)) go,
        record {
          order = M;
          is_order = f.order;
          reads = reads ∙ m.reads;
          count = omega (arith, m.count, len);
          tombs =
              sym (
                count_tombs-eq-zero r.slots (λ j l. f.no_tombs j (omega (arith, l, f.probed.len))));
          shape = inr f.probed;
          load = omega arith;
        },
        f.probed,
        refl,
        refl,
        refl,
        refl,
        refl,
        refl,
      )

  grown_cap : ℕ
  grown_cap = if obj.slot_cap == 0 then 8 else u32 (obj.slot_cap * 2)

  grown_cap-IsCap : obj.slot_cap ≤ max_cap → IsCap grown_cap
  unfolding grown_cap
  grown_cap-IsCap small = elim m.shape [
    | inl (z, e) ↦
        let g : (if obj.slot_cap == 0 then 8 else u32 (obj.slot_cap * 2)) ≡ 8 = ground arith in
        rw g (record { log = 3; pow = refl; pos = omega arith; word = omega arith })
    | inr p ↦
        let c = p.cap_ok in
        let g : (if obj.slot_cap == 0 then 8 else u32 (obj.slot_cap * 2)) ≡ obj.slot_cap * 2 =
          ground (arith, c.pos) in
        rw g (record {
          log = suc c.log;
          pow = omega (arith, c.pow, pow-suc 2 c.log);
          pos = omega (arith, c.pos);
          word = omega arith;
        })
  ]

  grown_cap_bounds :
      obj.slot_cap ≤ max_cap
      → ((obj.field_count + 1) * 4 ≤ grown_cap * 3)
        × (grown_cap ≤ 2 * obj.slot_cap + 8)
        × (obj.field_count < grown_cap)
        × (grown_cap * 3 < 2 ^ 32)
  unfolding grown_cap
  grown_cap_bounds small =
      grown_bounds obj.slot_cap obj.field_count obj.tombstone_count small m.load

  -- The test of obj_ensure_capacity.
  crowded : Bool
  crowded =
      let used = obj.field_count + obj.tombstone_count + 1 in
      (obj.slot_cap == 0) || ltb (u32 (obj.slot_cap * 3)) (u32 (used * 4))

  crowded_no :
      obj.slot_cap ≤ max_cap
      → crowded ≡ false
      → (0 < obj.slot_cap) × ((obj.field_count + obj.tombstone_count + 1) * 4 ≤ obj.slot_cap * 3)
  unfolding crowded
  crowded_no small e =
      crowded_bounds obj.slot_cap obj.field_count obj.tombstone_count small m.load e

  crowded_yes :
      obj.slot_cap ≤ max_cap
      → crowded ≡ true
      → obj.slot_cap * 3 < (obj.field_count + obj.tombstone_count + 1) * 4
  unfolding crowded
  crowded_yes small e = crowded_load obj.slot_cap obj.field_count obj.tombstone_count small m.load e

  grown_cap_is :
      obj.slot_cap ≤ max_cap → grown_cap ≡ (if obj.slot_cap == 0 then 8 else obj.slot_cap * 2)
  unfolding grown_cap
  grown_cap_is small = ground arith

  ensure_run :
      (o : CdoObject)
      → crowded ≡ true
      → enough_cap obj.field_count 32 grown_cap ≡ some grown_cap
      → obj_rehash obj grown_cap ≡ some o
      → obj_ensure_capacity obj ≡ some o
  unfolding obj_ensure_capacity grown_cap crowded
  ensure_run o yes_crowded enough run = rw (yes_crowded, enough, run)

  ensure_skip : crowded ≡ false → obj_ensure_capacity obj ≡ some obj
  unfolding obj_ensure_capacity crowded
  ensure_skip e = rw e

  -- On an object of at most 2^29 slots room is made for one more field: nothing changes if there is room,
  -- and else the capacity doubles, or becomes 8 if there was no table.
  pub obj_ensure_capacity-Roomy :
      obj.slot_cap ≤ max_cap
      → (o : CdoObject) × (obj_ensure_capacity obj ≡ some o) × Roomy obj fields o
  obj_ensure_capacity-Roomy small = elim (Bool-cases crowded) [
    | inr roomy ↦
        let room = crowded_no small roomy in
        (
          obj,
          ensure_skip roomy,
          record {
            models = m;
            probed = elim m.shape [ inl z ↦ absurd (omega (arith, room, z.0)) | inr p ↦ p ];
            room = room.1;
            same = (refl, refl, refl);
            bound = omega arith;
            grows = inl (room.1, refl);
          },
        )
    | inl full ↦
        let b = grown_cap_bounds small in
        let load = m.load in
        let enough =
          enough_cap_done obj.field_count 31 grown_cap (omega (arith, b))
            (omega (arith, b, load)) in
        let (o, run, models, probed, cap_is, no_tombs, count, kind, flag, items) =
          obj_rehash-Models grown_cap (grown_cap-IsCap small) (omega (arith, b, load))
            (omega (arith, b, load)) in
        (
          o,
          ensure_run o full enough run,
          record {
            models = models;
            probed = probed;
            room = omega (arith, cap_is, no_tombs, count, b, load);
            same = (kind, flag, items);
            bound = omega (arith, cap_is, b);
            grows = inr (crowded_yes small full, cap_is ∙ grown_cap_is small);
          },
        )
  ]
