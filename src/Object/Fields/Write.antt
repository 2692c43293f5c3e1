-- ===== src/Object/Fields/Write.antt =====
-- cdo_object_rawset against the list of fields.
use can_do.Base.{
  ℕ, ◌+◌, ◌-◌, ◌*◌, ◌^◌, ◌≤◌, ◌<◌, ◌≡◌, ◌≢◌, inl, inr, refl, sym, ap, ◌∙◌, ◌==◌, if◌then◌else◌,
  bit_and, Bool, true, false, List, [], ◌∷◌, ◌++◌, none, some, arith, ℕ_discrete, length, set,
  length-set, length-append,
}
use can_do.Base.Cells.{get_or-set}
use mathlib.Core.Path.{subst, ap₂}
use can_do.Object.Value.{CdoValue}
use can_do.Object.Fields.{
  no_slot, tombstone, field_static, u32, ObjSlot, slot_at, fresh_slot, home, CdoObject, Ring,
  append_slot, insert_new,
}
use can_do.Object.Fields.Probe.{
  key_at, IsProbed, dist, IsProbed_congr, Proposal, free, full, start_lt,
}
use can_do.Object.Fields.Order.{
  In, Distinct, next_at, prev_at, Linked-congr, Field, field_at, fields_of, fields_of_congr,
  le_length_of_all,
}
use can_do.Object.Fields.Append.{append-IsProbed, append-IsOrder, append-fields, tail_place}
use can_do.Object.Fields.Models.{count_tombs, count_tombs-set, Models, lookup_field}

-- A new value and new flags for the field with a name.
unfoldable pub replace_field : ℕ → CdoValue → ℕ → List Field → List Field
replace_field key v flags [] = []
replace_field key v flags (f ∷ fs) =
    if f.name == key
    then record f { value = v; flags = flags } ∷ fs
    else f ∷ replace_field key v flags fs

-- What a raw write does to the fields, and the result it reports.
unfoldable pub write_field : Bool → ℕ → CdoValue → ℕ → List Field → Bool × List Field
write_field readonly key v flags fields =
    if readonly then (false, fields) else (elim (lookup_field key fields) [
      | none ↦ (true, fields ++ (record { name = key; value = v; flags = flags } ∷ []))
      | some f ↦
          if bit_and f.flags field_static == 0
          then (true, replace_field key v flags fields)
          else (false, fields)
    ])

module _ (slots : List ObjSlot) (key i : ℕ) (v : CdoValue) (flags : ℕ) (il : i < length slots)
    (e : key_at slots i ≡ key) where
  unfoldable pub changed : List ObjSlot
  changed = set slots i (record (slot_at slots i) { value = v; flags = flags })

  slot_at-changed :
      (j : ℕ)
      → slot_at changed j ≡ (
          if i == j then record (slot_at slots i) { value = v; flags = flags } else slot_at slots j)
  unfolding changed
  slot_at-changed j =
      get_or-set slots i j (record (slot_at slots i) { value = v; flags = flags }) fresh_slot il

  links-changed :
      (j : ℕ)
      → (key_at changed j ≡ key_at slots j)
        × (prev_at changed j ≡ prev_at slots j)
        × (next_at changed j ≡ next_at slots j)
  links-changed j = ground (arith, slot_at-changed j)

  other : (j : ℕ) → j ≢ i → field_at changed j ≡ field_at slots j
  other j ne = ground (arith, slot_at-changed j)

  length-changed : length changed ≡ length slots
  unfolding changed
  length-changed = length-set slots i (record (slot_at slots i) { value = v; flags = flags })

  tombs-changed : count_tombs changed ≡ count_tombs slots
  unfolding changed
  tombs-changed =
      omega
        (arith, count_tombs-set slots i (record (slot_at slots i) { value = v; flags = flags }) il)

  fields-changed :
      (L : List ℕ)
      → ((j : ℕ) → In j L → key_at slots j ≡ key → j ≡ i)
      → Distinct L
      → fields_of changed L ≡ replace_field key v flags (fields_of slots L)
  unfolding replace_field
  fields-changed [] only d = refl
  fields-changed (j ∷ L) only d = elim (ℕ_discrete (key_at slots j) key) [
    | yes q ↦
        let t : (key_at slots j == key) ≡ true = ground arith in
        let same = only j (inl refl) q in
        rw t (
          ap₂ ◌∷◌ (ground (arith, slot_at-changed j, same)) (
            fields_of_congr slots changed L
              (λ n x. other n (λ z. d.0 (subst (λ (a : ℕ). In a L) (z ∙ sym same) x)))))
    | no ne ↦
        let t : (key_at slots j == key) ≡ false = ground arith in
        rw t (
          ap₂ ◌∷◌ (other j (λ z. ne (ap (key_at slots) z ∙ e)))
            (fields-changed L (λ n x. only n (inr x)) d.1))
  ]

-- The tombstone counter when a field takes a slot with key `k`.
tombs_after :
    (tombs left k : ℕ)
    → tombs < 2 ^ 32
    → left + (if k == tombstone then 1 else 0) ≡ tombs
    → (if k == tombstone then u32 (tombs + 2 ^ 32 - 1) else tombs) ≡ left
tombs_after tombs left k small e = ground arith

module _ {o : CdoObject} {fields : List Field} (m : Models o fields) (key : ℕ) (v : CdoValue)
    (flags : ℕ) where
  -- Overwriting a field in place.
  module _ (i : ℕ) (il : i < length o.slots) (e : key_at o.slots i ≡ key)
      (only : (j : ℕ) → In j m.order → key_at o.slots j ≡ key → j ≡ i) where
    pub changed-Models :
        Models
          (record o { slots = changed o.slots key i v flags il e })
          (replace_field key v flags fields)
    changed-Models =
        let slots = changed o.slots key i v flags il e in
        let links = links-changed o.slots key i v flags il e in
        let len = length-changed o.slots key i v flags il e in
        record {
          order = m.order;
          is_order = record {
            linked =
                Linked-congr o.slots slots no_slot m.order len (λ j x. links j) m.is_order.linked;
            distinct = m.is_order.distinct;
            starts = m.is_order.starts;
            ends = m.is_order.ends;
            covers = λ j l alive.
                m.is_order.covers j (omega (arith, l, len)) (omega (arith, alive, links j));
          };
          reads =
              fields-changed o.slots key i v flags il e m.order only m.is_order.distinct
              ∙ ap (replace_field key v flags) m.reads;
          count = m.count;
          tombs = m.tombs ∙ sym (tombs-changed o.slots key i v flags il e);
          shape = elim m.shape [
            | inl z ↦ absurd (omega (arith, il, ap length z.1))
            | inr p ↦ inr (IsProbed_congr o.slots slots o.slot_cap len (λ j l. inl (links j).0) p)
          ];
          load = m.load;
        }

  -- A new field in the slot that a failed lookup proposes.
  module _ (p : ℕ) (probed : IsProbed o.slots o.slot_cap)
      (room : (o.field_count + o.tombstone_count + 1) * 4 ≤ o.slot_cap * 3)
      (small : o.slot_cap ≤ 2 ^ 31) (live : 1 < key)
      (absent : (j : ℕ) → j < o.slot_cap → key_at o.slots j ≢ key)
      (ok : Proposal o.slots probed.cap_ok key
        (home key o.slot_cap)
        (start_lt o probed key)
        p) where
    not_full : ¬ ((j : ℕ) → j < o.slot_cap → 1 < key_at o.slots j)
    not_full all =
        let every =
          le_length_of_all o.slot_cap m.order
            (λ j l. m.is_order.covers j (omega (arith, l, probed.len)) (all j l)) in
        omega (arith, every, m.count)

    abbrev ring : Ring
    ring = record { slots = o.slots; head = o.fifo_head; tail = o.fifo_tail }

    module _ (pl : p < o.slot_cap) (dead : key_at o.slots p ≤ 1)
        (clear : (j : ℕ)
          → j < o.slot_cap
          → dist (home key o.slot_cap) j o.slot_cap < dist (home key o.slot_cap) p o.slot_cap
          → key_at o.slots j ≢ 0) where
      tombs-append :
          count_tombs (append_slot ring p key v flags).slots
            + (if key_at o.slots p == tombstone then 1 else 0)
          ≡ count_tombs o.slots
      unfolding append_slot
      tombs-append =
          let entry : ObjSlot = record {
            key = key;
            value = v;
            flags = flags;
            fifo_prev = o.fifo_tail;
            fifo_next = no_slot;
          } in
          let one = set o.slots p entry in
          let place =
            tail_place ring m.order o.slot_cap p key v flags m.is_order probed pl dead live absent
              clear in
          ground (
            arith,
            live,
            place,
            probed.len,
            pl,
            length-set o.slots p entry,
            count_tombs-set o.slots p entry,
            count_tombs-set one o.fifo_tail (record (slot_at one o.fifo_tail) { fifo_next = p }),
          )

      insert_free :
          Models
            (insert_new o p key v flags).obj
            (fields ++ (record { name = key; value = v; flags = flags } ∷ []))
      unfolding insert_new
      insert_free =
          let len = length-append m.order (p ∷ []) in
          let load = m.load in
          let count = m.count in
          let word : o.tombstone_count < 2 ^ 32 = omega (arith, load) in
          let tombs =
            tombs_after o.tombstone_count (count_tombs (append_slot ring p key v flags).slots)
              (key_at o.slots p) word (tombs-append ∙ sym m.tombs) in
          record {
            order = m.order ++ (p ∷ []);
            is_order =
                append-IsOrder ring m.order o.slot_cap p key v flags m.is_order probed pl dead live
                  absent clear;
            reads =
                append-fields ring m.order o.slot_cap p key v flags m.is_order probed pl dead live
                  absent clear
                ∙ ap
                    (λ (t : List Field).
                      t ++ (record { name = key; value = v; flags = flags } ∷ []))
                    m.reads;
            count = omega (arith, len, count);
            tombs = tombs;
            shape = inr (
                append-IsProbed ring m.order o.slot_cap p key v flags m.is_order probed pl dead live
                  absent clear);
            load = omega (arith, tombs, tombs-append, m.tombs, room);
          }

    pub insert_new-Models :
        Models
          (insert_new o p key v flags).obj
          (fields ++ (record { name = key; value = v; flags = flags } ∷ []))
    insert_new-Models = elim ok [
      | free pl dead clear ↦ insert_free pl dead clear
      | full q all ↦ absurd (not_full all)
    ]
