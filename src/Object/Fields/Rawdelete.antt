-- ===== src/Object/Fields/Rawdelete.antt =====
-- cdo_object_rawdelete: the call returns, and does to the fields what `remove_field` says.
use can_do.Base.{
  ℕ, ◌+◌, ◌<◌, ◌≡◌, ◌≢◌, ◌⊎◌, inl, inr, refl, sym, ap, ◌∙◌, ◌==◌, if◌then◌else◌, bit_and, Bool,
  true, false, List, [], ◌∷◌, none, some, arith, ℕ_discrete, length, length-set, Bool-cases,
}
use can_do.Base.Cells.{get_or-set}
use mathlib.Core.Path.{subst, ap₂}
use can_do.Object.Value.{null}
use can_do.Object.Fields.{
  no_slot, tombstone, field_static, field_none, ObjSlot, slot_at, fresh_slot, CdoObject, Out,
  obj_lookup, set_next, set_prev, unlink, cdo_object_rawdelete,
}
use can_do.Object.Fields.Probe.{key_at, IsProbed, IsProbed_congr}
use can_do.Object.Fields.Order.{
  In, Distinct, next_at, prev_at, Linked-live, Field, field_at, fields_of, fields_of_congr, IsOrder,
  without, length-without, In-without,
}
use can_do.Object.Fields.Unlink.{
  Distinct-without, neighbours, first-without, final-without, Bypassed, Linked-without,
  without_here, without_later,
}
use can_do.Object.Fields.Models.{
  count_tombs, count_tombs-set, Models, lookup_field, found, missing, locate,
}
use can_do.Object.Fields.Capacity.{length_lt}

-- The fields less the one with a name.
unfoldable pub erase_field : ℕ → List Field → List Field
erase_field key [] = []
erase_field key (f ∷ fs) = if f.name == key then fs else f ∷ erase_field key fs

-- What a raw deletion does to the fields, and the result it reports.
unfoldable pub remove_field : Bool → ℕ → List Field → Bool × List Field
remove_field readonly key fields =
    if readonly then (false, fields) else (elim (lookup_field key fields) [
      | none ↦ (false, fields)
      | some f ↦
          if bit_and f.flags field_static == 0
          then (true, erase_field key fields)
          else (false, fields)
    ])

abbrev dead_slot : ObjSlot
dead_slot = record {
  key = tombstone;
  value = null;
  flags = field_none;
  fifo_prev = no_slot;
  fifo_next = no_slot;
}

module _ (slots : List ObjSlot) (a b : ℕ) where
  length-set_next : length (set_next slots a b) ≡ length slots
  unfolding set_next
  length-set_next = ground (arith, length-set slots a (record (slot_at slots a) { fifo_next = b }))

  length-set_prev : length (set_prev slots a b) ≡ length slots
  unfolding set_prev
  length-set_prev = ground (arith, length-set slots a (record (slot_at slots a) { fifo_prev = b }))

  slot_at-set_next :
      (j : ℕ)
      → (a ≡ no_slot) ⊎ (a < length slots)
      → j < length slots
      → length slots < no_slot
      → slot_at (set_next slots a b) j
        ≡ (if a == j then record (slot_at slots j) { fifo_next = b } else slot_at slots j)
  unfolding set_next
  slot_at-set_next j ok l small =
      ground (arith, get_or-set slots a j (record (slot_at slots a) { fifo_next = b }) fresh_slot)

  slot_at-set_prev :
      (j : ℕ)
      → (a ≡ no_slot) ⊎ (a < length slots)
      → j < length slots
      → length slots < no_slot
      → slot_at (set_prev slots a b) j
        ≡ (if a == j then record (slot_at slots j) { fifo_prev = b } else slot_at slots j)
  unfolding set_prev
  slot_at-set_prev j ok l small =
      ground (arith, get_or-set slots a j (record (slot_at slots a) { fifo_prev = b }) fresh_slot)

  key_at-set_next :
      (j : ℕ)
      → (a ≡ no_slot) ⊎ (a < length slots)
      → j < length slots
      → length slots < no_slot
      → key_at (set_next slots a b) j ≡ key_at slots j
  key_at-set_next j ok l small = ground (arith, slot_at-set_next j ok l small)

  key_at-set_prev :
      (j : ℕ)
      → (a ≡ no_slot) ⊎ (a < length slots)
      → j < length slots
      → length slots < no_slot
      → key_at (set_prev slots a b) j ≡ key_at slots j
  key_at-set_prev j ok l small = ground (arith, slot_at-set_prev j ok l small)

  tombs-set_next :
      (a ≡ no_slot) ⊎ (a < length slots) → count_tombs (set_next slots a b) ≡ count_tombs slots
  unfolding set_next
  tombs-set_next ok =
      ground (arith, count_tombs-set slots a (record (slot_at slots a) { fifo_next = b }))

  tombs-set_prev :
      (a ≡ no_slot) ⊎ (a < length slots) → count_tombs (set_prev slots a b) ≡ count_tombs slots
  unfolding set_prev
  tombs-set_prev ok =
      ground (arith, count_tombs-set slots a (record (slot_at slots a) { fifo_prev = b }))

key_choice :
    (i j old new : ℕ)
    → new ≡ (if i == j then tombstone else old)
    → (i ≡ j → old ≢ 0)
    → (new ≡ old) ⊎ ((old ≢ 0) × (new ≡ 1))
key_choice i j old new e h = elim (ℕ_discrete i j) [
  | yes q ↦ inr (h q, ground (arith, e, q))
  | no q ↦ inl (ground (arith, e, q))
]

tomb_added :
    (k before : ℕ) {after : ℕ}
    → 1 < k
    → after + (if k == tombstone then 1 else 0) ≡ before + (if tombstone == tombstone then 1 else 0)
    → after ≡ before + 1
tomb_added k before l e = ground arith

-- Three writes in a row, read at one slot.
three_writes :
    (i j p n : ℕ) (s t u w : ObjSlot)
    → t ≡ (if p == j then record s { fifo_next = n } else s)
    → u ≡ (if n == j then record t { fifo_prev = p } else t)
    → w ≡ (if i == j then dead_slot else u)
    → w ≡ (
        if i == j then dead_slot else record s {
          fifo_prev = if n == j then p else s.fifo_prev;
          fifo_next = if p == j then n else s.fifo_next;
        })
three_writes i j p n s t u w a b c = ground arith

module _ {o : CdoObject} {fields : List Field} (m : Models o fields) (key i : ℕ)
    (il : i < length o.slots) (at : key_at o.slots i ≡ key) (live : 1 < key) (member : In i m.order)
    (only : (j : ℕ) → In j m.order → key_at o.slots j ≡ key → j ≡ i)
    (small : length o.slots < no_slot) where
  abbrev left : List ObjSlot
  left = (unlink o i).obj.slots

  inside : (j : ℕ) → In j m.order → j < length o.slots
  inside j x = (Linked-live o.slots no_slot j m.order m.is_order.linked x).0

  sides :
      ((prev_at o.slots i ≡ no_slot) ⊎ (prev_at o.slots i < length o.slots))
      × ((next_at o.slots i ≡ no_slot) ⊎ (next_at o.slots i < length o.slots))
  sides =
      let (a, b) = neighbours i o.slots no_slot m.order m.is_order.linked member in
      (
        elim a [ inl q ↦ inl q | inr n ↦ inr (inside _ n) ],
        elim b [ inl q ↦ inl q | inr n ↦ inr (inside _ n) ],
      )

  length-left : length left ≡ length o.slots
  unfolding unlink
  length-left =
      let p = prev_at o.slots i in
      let n = next_at o.slots i in
      omega (
        arith,
        length-set (set_prev (set_next o.slots p n) n p) i dead_slot,
        length-set_prev (set_next o.slots p n) n p,
        length-set_next o.slots p n,
      )

  slot_at-left :
      (j : ℕ)
      → j < length o.slots
      → slot_at left j ≡ (
          if i == j then dead_slot else record (slot_at o.slots j) {
            fifo_prev = if next_at o.slots i == j then prev_at o.slots i else prev_at o.slots j;
            fifo_next = if prev_at o.slots i == j then next_at o.slots i else next_at o.slots j;
          })
  unfolding unlink
  slot_at-left j l =
      let p = prev_at o.slots i in
      let n = next_at o.slots i in
      let back = set_next o.slots p n in
      let both = set_prev back n p in
      let bl = length-set_next o.slots p n in
      let cl = length-set_prev back n p in
      three_writes i j p n (slot_at o.slots j) (slot_at back j) (slot_at both j) (slot_at left j)
        (slot_at-set_next o.slots p n j sides.0 l small)
        (slot_at-set_prev back n p j (rw bl sides.1) (omega (arith, bl, l))
          (omega (arith, bl, small)))
        (get_or-set both i j dead_slot fresh_slot (omega (arith, il, bl, cl)))

  tombs-left : count_tombs left ≡ count_tombs o.slots + 1
  unfolding unlink
  tombs-left =
      let p = prev_at o.slots i in
      let n = next_at o.slots i in
      let back = set_next o.slots p n in
      let both = set_prev back n p in
      let bl = length-set_next o.slots p n in
      let cl = length-set_prev back n p in
      let a = tombs-set_next o.slots p n sides.0 in
      let c = tombs-set_prev back n p (rw bl sides.1) in
      let d = count_tombs-set both i dead_slot (omega (arith, il, bl, cl)) in
      let same : key_at both i ≡ key_at o.slots i =
        key_at-set_prev back n p i (rw bl sides.1) (omega (arith, bl, il))
          (omega (arith, bl, small))
        ∙ key_at-set_next o.slots p n i sides.0 il small in
      tomb_added (key_at both i) (count_tombs both) (omega (arith, same, at, live)) d
      ∙ ap (λ (t : ℕ). t + 1) (c ∙ a)

  key_at-left :
      (j : ℕ)
      → j < length o.slots
      → key_at left j ≡ (if i == j then tombstone else key_at o.slots j)
  key_at-left j l = ground (arith, slot_at-left j l)

  bypassed : Bypassed i o.slots left
  bypassed = record {
    len = length-left;
    small = small;
    keys = λ j l ne. ground (arith, slot_at-left j l, ne);
    nexts = λ j l ne. ground (arith, slot_at-left j l, ne);
    prevs = λ j l ne. ground (arith, slot_at-left j l, ne);
  }

  field_at-left : (j : ℕ) → j < length o.slots → j ≢ i → field_at left j ≡ field_at o.slots j
  field_at-left j l ne = ground (arith, slot_at-left j l, ne)

  fields-left :
      (L : List ℕ)
      → ((j : ℕ) → In j L → (j < length o.slots) × (key_at o.slots j ≡ key → j ≡ i))
      → Distinct L
      → In i L
      → fields_of left (without i L) ≡ erase_field key (fields_of o.slots L)
  unfolding erase_field
  fields-left [] all d x = elim x [ ]
  fields-left (j ∷ L) all d x = elim (ℕ_discrete i j) [
    | yes e ↦
        let t : (key_at o.slots j == key) ≡ true = ground (arith, at, e) in
        let w : without i (j ∷ L) ≡ L = ap (λ (n : ℕ). without n (j ∷ L)) e ∙ without_here j L in
        rw (w, t)
          (fields_of_congr o.slots left L (λ n y.
            field_at-left n (all n (inr y)).0 (λ q. d.0 (subst (λ (a : ℕ). In a L) (q ∙ e) y))))
    | no ne ↦
        let other : j ≢ i = λ q. ne (sym q) in
        let t : (key_at o.slots j == key) ≡ false = ground (arith, (all j (inl refl)).1, other) in
        let y : In i L = elim x [ inl q ↦ absurd (ne q) | inr y ↦ y ] in
        rw (without_later i j L ne, t)
          (ap₂ ◌∷◌ (field_at-left j (all j (inl refl)).0 other)
            (fields-left L (λ n z. all n (inr z)) d.1 y))
  ]

  no_slot_out : ¬ In no_slot m.order
  no_slot_out x = let l = inside no_slot x in omega arith

  left-IsOrder :
      IsOrder left (unlink o i).obj.fifo_head (unlink o i).obj.fifo_tail (without i m.order)
  left-IsOrder = record {
    linked =
        Linked-without i bypassed no_slot m.order m.is_order.linked m.is_order.distinct member
          no_slot_out;
    distinct = Distinct-without i m.order m.is_order.distinct;
    starts =
        unfold unlink in
        sym (
          first-without i o.slots no_slot m.order m.is_order.linked m.is_order.distinct member
            no_slot_out
          ∙ ap (λ (t : ℕ). if prev_at o.slots i == no_slot then next_at o.slots i else t)
              (sym m.is_order.starts));
    ends =
        unfold unlink in
        sym (
          final-without i o.slots no_slot m.order m.is_order.linked small m.is_order.distinct member
          ∙ ap (λ (t : ℕ). if next_at o.slots i == no_slot then prev_at o.slots i else t)
              (sym m.is_order.ends));
    covers = λ j l alive.
        let jl : j < length o.slots = omega (arith, l, length-left) in
        let k = key_at-left j jl in
        let ne : j ≢ i = ground (arith, k, alive) in
        let old : 1 < key_at o.slots j = ground (arith, k, alive) in
        In-without i j m.order (m.is_order.covers j jl old) ne;
  }

  unlink-Models : Models (unlink o i).obj (erase_field key fields)
  unfolding unlink
  unlink-Models =
      let load = m.load in
      let len = length-without i m.order member in
      let count = m.count in
      let tombs = m.tombs in
      let fewer : o.field_count ≡ length (without i m.order) + 1 = omega (arith, len, count) in
      let probed : IsProbed o.slots o.slot_cap = elim m.shape [
        | inl z ↦ absurd (omega (arith, il, ap length z.1))
        | inr p ↦ p
      ] in
      let word = probed.cap_ok.word in
      let after = tombs-left in
      record {
        order = without i m.order;
        is_order = left-IsOrder;
        reads =
            fields-left m.order (λ j x. (inside j x, only j x)) m.is_order.distinct member
            ∙ ap (erase_field key) m.reads;
        count = omega (arith, fewer, load, word);
        tombs = omega (arith, after, tombs, load, word);
        shape = inr (
            IsProbed_congr o.slots left o.slot_cap length-left
              (λ j l.
                key_choice i j (key_at o.slots j) (key_at left j)
                  (key_at-left j (omega (arith, l, probed.len)))
                  (λ e. omega (arith, ap (key_at o.slots) e, at, live)))
              probed);
        load = omega (arith, fewer, load, word);
      }

module _ (obj : CdoObject) (key : ℕ) where
  rawdelete_locked :
      obj.readonly ≡ true
      → cdo_object_rawdelete obj key ≡ some (record { obj = obj; result = false; events = [] })
  unfolding cdo_object_rawdelete
  rawdelete_locked e = ground arith

  rawdelete_open :
      (at p : ℕ)
      → obj.readonly ≡ false
      → obj_lookup obj key ≡ some (at, p)
      → cdo_object_rawdelete obj key
        ≡ some (
            if at == no_slot
            then record { obj = obj; result = false; events = [] }
            else if bit_and (slot_at obj.slots at).flags field_static == 0
            then unlink obj at
            else record { obj = obj; result = false; events = [] })
  unfolding cdo_object_rawdelete
  rawdelete_open at p e look = ground (arith, e, look)

-- The outcome of a deletion, and what it leaves alone.
pub record Removes (obj : CdoObject) (spec : Bool × List Field) (o : Out) : Type 0 where
  pub result : o.result ≡ spec.0
  pub models : Models o.obj spec.1
  pub same : (o.obj.kind ≡ obj.kind) × (o.obj.readonly ≡ obj.readonly)

module _ {obj : CdoObject} {fields : List Field} (m : Models obj fields) (key : ℕ)
    (live : 1 < key) where
  abbrev kept : Out
  kept = record { obj = obj; result = false; events = [] }

  keeps : {spec : Bool × List Field} → spec ≡ (false, fields) → Removes obj spec kept
  keeps e = record { result = rw e; models = rw e m; same = (refl, refl) }

  remove_none : lookup_field key fields ≡ none → remove_field false key fields ≡ (false, fields)
  unfolding remove_field
  remove_none e = rw e

  remove_some :
      (f : Field)
      → lookup_field key fields ≡ some f
      → remove_field false key fields ≡ (
          if bit_and f.flags field_static == 0
          then (true, erase_field key fields)
          else (false, fields))
  unfolding remove_field
  remove_some f e = rw e

  remove_open :
      obj.readonly ≡ false
      → (out : Out) × (cdo_object_rawdelete obj key ≡ some out)
        × Removes obj (remove_field false key fields) out
  remove_open e = elim (locate m key live) [
    | missing p absent look none_there ↦
        (kept, rawdelete_open obj key no_slot p e look, keeps (remove_none none_there))
    | found i il at member only look there ↦
        let small = length_lt m in
        let pick : (i == no_slot) ≡ false = ground (arith, il, small) in
        let go = rawdelete_open obj key i i e look in
        let spec = remove_some (field_at obj.slots i) there in
        elim (Bool-cases (bit_and (slot_at obj.slots i).flags field_static == 0)) [
          | inl plain ↦
              let answer : remove_field false key fields ≡ (true, erase_field key fields) =
                spec ∙ rw plain in
              (
                unlink obj i,
                go ∙ rw (pick, plain),
                record {
                  result = unfold unlink in ap (λ (t : Bool × List Field). t.0) (sym answer);
                  models = rw answer (unlink-Models m key i il at live member only small);
                  same = unfold unlink in (refl, refl);
                },
              )
          | inr static ↦ (kept, go ∙ rw (pick, static), keeps (spec ∙ rw static))
        ]
  ]

  -- A raw deletion with a legal key returns. It reports true and erases the field exactly where the
  -- object is writable and has the field, not static; otherwise the object is as it was.
  pub rawdelete-Removes :
      (out : Out) × (cdo_object_rawdelete obj key ≡ some out)
      × Removes obj (remove_field obj.readonly key fields) out
  rawdelete-Removes = elim (Bool-cases obj.readonly) [
    | inl locked ↦ (
      kept,
      rawdelete_locked obj key locked,
      subst (λ (b : Bool). Removes obj (remove_field b key fields) kept) (sym locked)
          (keeps (unfold remove_field in refl)),
    )
    | inr open_to ↦
        let (out, go, r) = remove_open open_to in
        (out, go, subst (λ (b : Bool). Removes obj (remove_field b key fields) out) (sym open_to) r)
  ]
