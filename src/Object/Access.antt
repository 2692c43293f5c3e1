-- ===== src/Object/Access.antt =====
-- source/object/object.c: reading an object: rawget through the table, iteration in insertion order,
-- length, the readonly flag, and lookup along the prototype chain of `__index` fields. The callback
-- of an iteration is a function on a state: it does not touch the object that is iterated.
pub mod Reads
pub mod Chain
mod Tests
use can_do.Base.{ℕ, zero, suc, ◌==◌, if◌then◌else◌, Bool, true, false, ◌||◌, Option, none, some}
use can_do.Object.Value.{CdoValue, object, array, function, native}
use can_do.Object.Fields.{no_slot, ObjSlot, slot_at, ObjectKind, CdoObject, cdo_object_rawget}

-- The loop of cdo_object_foreach, on fuel: the callback says whether to go on.
unfoldable pub foreach_from {ℓ} :
    {S : Type ℓ} → (ℕ → CdoValue → ℕ → S → S × Bool) → CdoObject → ℕ → ℕ → S → Option S
foreach_from fn obj zero idx s = if idx == no_slot then some s else none
foreach_from fn obj (suc fuel) idx s =
    let slot = slot_at obj.slots idx in
    let after = fn slot.key slot.value slot.flags s in
    let rest = foreach_from fn obj fuel slot.fifo_next after.0 in
    if idx == no_slot then some s else if after.1 then rest else some after.0

unfoldable pub cdo_object_foreach {ℓ} :
    {S : Type ℓ} → (ℕ → CdoValue → ℕ → S → S × Bool) → CdoObject → S → Option S
cdo_object_foreach fn obj s = foreach_from fn obj obj.slot_cap obj.fifo_head s

unfoldable pub cdo_object_length : CdoObject → ℕ
cdo_object_length obj = elim obj.kind [ ObjectKind.obj_array ↦ obj.items_len | _ ↦ obj.field_count ]

unfoldable pub cdo_object_set_readonly : CdoObject → Bool → CdoObject
cdo_object_set_readonly obj ro = record obj { readonly = ro }

unfoldable pub cdo_object_is_readonly : CdoObject → Bool
cdo_object_is_readonly obj = obj.readonly

-- The object that a value points to; 0 is NULL.
unfoldable pub pointer_of : CdoValue → ℕ
pointer_of (object p) = p
pointer_of (array p) = p
pointer_of (function p) = p
pointer_of (native p) = p
pointer_of _ = 0

-- CANDO_PROTO_DEPTH_MAX
abbrev pub proto_depth_max : ℕ
proto_depth_max = 32

-- One level of cdo_object_get: the value, the end of the search, or the next object.
pub data Level : Type 0 where
  hit : CdoValue → Level
  stop : Level
  climb : ℕ → Level

unfoldable pub level : (ℕ → CdoObject) → ℕ → ℕ → ℕ → Option Level
unfolding pointer_of
level heap meta_index key cur = elim (cdo_object_rawget (heap cur) key) [
  | none ↦ none
  | some (some v) ↦ some (hit v)
  | some none ↦ elim (cdo_object_rawget (heap cur) meta_index) [
    | none ↦ none
    | some none ↦ some stop
    | some (some v) ↦
        let up = pointer_of v in some (if (up == 0) || (up == cur) then stop else climb up)
  ]
]

-- `heap` gives the object at an address, `meta_index` is the interned `__index`.
unfoldable pub get_from : (ℕ → CdoObject) → ℕ → ℕ → ℕ → ℕ → Option (Option CdoValue)
get_from heap meta_index key zero cur = some none
get_from heap meta_index key (suc depth) cur = elim (level heap meta_index key cur) [
  | none ↦ none
  | some (hit v) ↦ some (some v)
  | some stop ↦ some none
  | some (climb up) ↦ get_from heap meta_index key depth up
]

unfoldable pub cdo_object_get : (ℕ → CdoObject) → ℕ → ℕ → ℕ → Option (Option CdoValue)
cdo_object_get heap meta_index obj key = get_from heap meta_index key proto_depth_max obj
