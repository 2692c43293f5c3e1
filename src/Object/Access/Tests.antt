-- ===== src/Object/Access/Tests.antt =====
-- The object operations run on small objects, and the theorems about them applied there.
use can_do.Base.{
  ℕ, zero, suc, ◌<◌, ◌≡◌, ◌≢◌, inl, inr, refl, sym, ◌∙◌, Bool, true, false, [], ◌∷◌, List, some,
  arith,
}
use mathlib.Core.Option.{some-injective}
use mathlib.Core.Path.{subst}
use can_do.Object.Value.{CdoValue, number, object, cdo_value_copy, cdo_value_release}
use can_do.Object.Fields.{
  no_slot, ObjSlot, fresh_slot, CdoObject, ObjectKind, Out, ptr_hash, home, next, probe, obj_lookup,
  append_slot, first_empty, rehash_from, obj_rehash, enough_cap, obj_ensure_capacity,
  cdo_object_rawget, overwrite, insert_new, cdo_object_rawset, set_next, set_prev, unlink,
  cdo_object_rawdelete, cdo_object_new,
}
use can_do.Object.Fields.Order.{Field}
use can_do.Object.Fields.Probe.{
  IsCap, IsProbed, key_at, obj_lookup_found, obj_lookup_absent, start_lt, Proposal,
}
use can_do.Object.Fields.Models.{Models, lookup_field}
use can_do.Object.Fields.Capacity.{Roomy, obj_rehash-Models, obj_ensure_capacity-Roomy}
use can_do.Object.Fields.Write.{replace_field, write_field}
use can_do.Object.Fields.Rawset.{Writes, rawset-Writes}
use can_do.Object.Fields.Rawdelete.{erase_field, remove_field, Removes, rawdelete-Removes}
use can_do.Object.Access.{
  foreach_from, cdo_object_foreach, cdo_object_length, pointer_of, proto_depth_max, level, get_from,
  cdo_object_get,
}
use can_do.Object.Access.Reads.{value_of, new-Models, rawget-eq-value_of, visit, foreach-eq-visit}
use can_do.Object.Access.Chain.{
  parent, reads, own, parent_of, lineage, first_value, get-eq-first_value,
}

everything : Unit {0}
unfolding ptr_hash home next probe obj_lookup append_slot first_empty rehash_from obj_rehash
    enough_cap obj_ensure_capacity cdo_object_rawget overwrite insert_new cdo_object_rawset set_next
    set_prev unlink cdo_object_rawdelete replace_field write_field erase_field remove_field
    lookup_field foreach_from cdo_object_foreach cdo_object_length pointer_of level get_from
    cdo_object_get visit cdo_value_copy cdo_value_release own parent_of lineage first_value
everything = tt

abbrev lone_slot : ℕ → CdoValue → ObjSlot
lone_slot key v = record {
  key = key;
  value = v;
  flags = 0;
  fifo_prev = no_slot;
  fifo_next = no_slot;
}

-- A table of eight slots whose slot `1` holds the only field.
abbrev lone : ℕ → CdoValue → CdoObject
lone key v = record {
  kind = ObjectKind.obj_object;
  readonly = false;
  slots =
      fresh_slot
      ∷ lone_slot key v
      ∷ fresh_slot
      ∷ fresh_slot
      ∷ fresh_slot
      ∷ fresh_slot
      ∷ fresh_slot
      ∷ fresh_slot
      ∷ [];
  slot_cap = 8;
  field_count = 1;
  tombstone_count = 0;
  fifo_head = 1;
  fifo_tail = 1;
  items_len = 0;
}

abbrev field : ℕ → CdoValue → Field
field key v = record { name = key; value = v; flags = 0 }

module _ (key : ℕ) (v : CdoValue) (live : 1 < key) where
  written :
      (out : Out) × (cdo_object_rawset cdo_object_new key v 0 ≡ some out)
      × Writes cdo_object_new (write_field false key v 0 []) out
  written = rawset-Writes new-Models key live v 0 (omega arith)

-- The field that a write gives a new object.
lone-Models :
    (key : ℕ) (v : CdoValue)
    → 1 < key
    → cdo_object_rawset cdo_object_new key v 0
      ≡ some (record { obj = lone key v; result = true; events = [] })
    → Models (lone key v) (field key v ∷ [])
unfolding write_field lookup_field
lone-Models key v live run =
    let (out, e, w) = written key v live in
    let same : out ≡ record { obj = lone key v; result = true; events = [] } =
      some-injective out (record { obj = lone key v; result = true; events = [] }) (sym e ∙ run) in
    subst (λ (o : Out). Models o.obj (field key v ∷ [])) same w.models

abbrev five : CdoObject
five = lone 16 (number 5)

abbrev five_fields : List Field
five_fields = field 16 (number 5) ∷ []

five-Models : Models five five_fields
unfolding everything
five-Models = lone-Models 16 (number 5) (omega arith) refl

rawset-Writes_example :
    (out : Out) × (cdo_object_rawset five 48 (number 7) 1 ≡ some out)
    × Writes five (write_field false 48 (number 7) 1 five_fields) out
rawset-Writes_example = rawset-Writes five-Models 48 (omega arith) (number 7) 1 (omega arith)

rawdelete-Removes_example :
    (out : Out) × (cdo_object_rawdelete five 16 ≡ some out)
    × Removes five (remove_field false 16 five_fields) out
rawdelete-Removes_example = rawdelete-Removes five-Models 16 (omega arith)

rawget-eq-value_of_example : cdo_object_rawget five 16 ≡ some (value_of 16 five_fields)
rawget-eq-value_of_example = rawget-eq-value_of five-Models 16 (omega arith) refl

-- A callback that counts the fields and goes on.
abbrev count_up : ℕ → CdoValue → ℕ → ℕ → ℕ × Bool
count_up key v flags n = (suc n, true)

foreach-eq-visit_example : cdo_object_foreach count_up five 0 ≡ some (visit count_up five_fields 0)
foreach-eq-visit_example = foreach-eq-visit five-Models count_up 0

sixteen-IsCap : IsCap 16
sixteen-IsCap = record { log = 4; pow = refl; pos = omega arith; word = omega arith }

obj_rehash-Models_example :
    (o : CdoObject) × (obj_rehash five 16 ≡ some o)
    × Models o five_fields
    × IsProbed o.slots o.slot_cap
    × (o.slot_cap ≡ 16)
    × (o.tombstone_count ≡ 0)
    × (o.field_count ≡ five.field_count)
    × (o.kind ≡ five.kind)
    × (o.readonly ≡ five.readonly)
    × (o.items_len ≡ five.items_len)
obj_rehash-Models_example =
    obj_rehash-Models five-Models 16 sixteen-IsCap (omega arith) (omega arith)

obj_ensure_capacity-Roomy_example :
    (o : CdoObject) × (obj_ensure_capacity five ≡ some o) × Roomy five five_fields o
obj_ensure_capacity-Roomy_example = obj_ensure_capacity-Roomy five-Models (omega arith)

five-IsProbed : IsProbed five.slots five.slot_cap
five-IsProbed = elim five-Models.shape [ inl z ↦ absurd (omega (arith, z.0)) | inr p ↦ p ]

obj_lookup_found_example : obj_lookup five 16 ≡ some (1, 1)
obj_lookup_found_example = obj_lookup_found five five-IsProbed 16 1 (omega arith) refl (omega arith)

five_lacks : (j : ℕ) → j < 8 → key_at five.slots j ≢ 48
five_lacks zero l e = absurd (omega (arith, e))
five_lacks (suc zero) l e = absurd (omega (arith, e))
five_lacks (suc (suc zero)) l e = absurd (omega (arith, e))
five_lacks (suc (suc (suc zero))) l e = absurd (omega (arith, e))
five_lacks (suc (suc (suc (suc zero)))) l e = absurd (omega (arith, e))
five_lacks (suc (suc (suc (suc (suc zero))))) l e = absurd (omega (arith, e))
five_lacks (suc (suc (suc (suc (suc (suc zero)))))) l e = absurd (omega (arith, e))
five_lacks (suc (suc (suc (suc (suc (suc (suc zero))))))) l e = absurd (omega (arith, e))
five_lacks (suc (suc (suc (suc (suc (suc (suc (suc j)))))))) l e = absurd (omega arith)

obj_lookup_absent_example :
    (p : ℕ) × (obj_lookup five 48 ≡ some (no_slot, p))
    × Proposal five.slots five-IsProbed.cap_ok 48 (home 48 8) (start_lt five five-IsProbed 48) p
obj_lookup_absent_example = obj_lookup_absent five five-IsProbed 48 five_lacks

-- An object whose `__index`, the key 80, is the object at address 2.
abbrev child : CdoObject
child = lone 80 (object 2)

abbrev heap : ℕ → CdoObject
heap zero = child
heap (suc zero) = child
heap (suc (suc p)) = five

abbrev heap_fields : ℕ → List Field
heap_fields zero = field 80 (object 2) ∷ []
heap_fields (suc zero) = field 80 (object 2) ∷ []
heap_fields (suc (suc p)) = five_fields

child-Models : Models child (field 80 (object 2) ∷ [])
unfolding everything
child-Models = lone-Models 80 (object 2) (omega arith) refl

heap-Models : (p : ℕ) → Models (heap p) (heap_fields p)
heap-Models zero = child-Models
heap-Models (suc zero) = child-Models
heap-Models (suc (suc p)) = five-Models

inherited : cdo_object_get heap 80 1 16 ≡ some (some (number 5))
unfolding everything
inherited = refl

get-eq-first_value_example :
    cdo_object_get heap 80 1 16
    ≡ some (
        first_value
          (reads heap heap_fields 16)
          (lineage (parent heap heap_fields 80) proto_depth_max 1))
get-eq-first_value_example =
    get-eq-first_value heap heap_fields heap-Models 80 16 (omega arith) (omega arith) 1
