-- ===== src/Object/Fields.antt =====
-- source/object/object.c: the fields of an object, an open-addressing hash table with linear probing
-- whose live slots are also linked, in insertion order, by slot index. A key is the address of an
-- interned string: 0 is NULL, an empty slot, and 1 stands for the tombstone sentinel's address.
-- Each operation holds the object's lock throughout, so it is one step here. `none` is a loop that is
-- still running when its fuel, the number of slots, is spent.
pub mod Probe
pub mod Order
pub mod Append
pub mod Rehash
pub mod Models
pub mod Capacity
pub mod Write
pub mod Rawset
pub mod Unlink
pub mod Rawdelete
use can_do.Base.{
  ℕ, zero, suc, ◌+◌, ◌-◌, ◌*◌, ◌/◌, ◌%◌, ◌^◌, bit_and, bit_xor, ltb, leb, ◌==◌, if◌then◌else◌, Bool,
  true, false, not, ◌&&◌, ◌||◌, List, [], ◌∷◌, ◌++◌, Option, none, some, length, get_or, set,
  replicate,
}
use mathlib.Core.Option
use can_do.Object.Value.{CdoValue, null, RefEvent, cdo_value_copy, cdo_value_release}

-- UINT32_MAX, which marks "no slot".
abbrev pub no_slot : ℕ
no_slot = 2 ^ 32 - 1

abbrev pub tombstone : ℕ
tombstone = 1

abbrev pub field_none : ℕ
field_none = 0

abbrev pub field_static : ℕ
field_static = 1

pub record ObjSlot : Type 0 where
  pub key : ℕ
  pub value : CdoValue
  pub flags : ℕ
  pub fifo_prev : ℕ
  pub fifo_next : ℕ

pub data ObjectKind : Type 0 where
  obj_object obj_array obj_function obj_native obj_thread : ObjectKind

-- `slots` has `slot_cap` entries.
pub record CdoObject : Type 0 where
  pub kind : ObjectKind
  pub readonly : Bool
  pub slots : List ObjSlot
  pub slot_cap : ℕ
  pub field_count : ℕ
  pub tombstone_count : ℕ
  pub fifo_head : ℕ
  pub fifo_tail : ℕ
  pub items_len : ℕ

pub record Out : Type 0 where
  pub obj : CdoObject
  pub result : Bool
  pub events : List RefEvent

abbrev pub u32 : ℕ → ℕ
u32 n = n % 2 ^ 32

abbrev pub cdo_obj_alloc : ObjectKind → CdoObject
cdo_obj_alloc k = record {
  kind = k;
  readonly = false;
  slots = [];
  slot_cap = 0;
  field_count = 0;
  tombstone_count = 0;
  fifo_head = no_slot;
  fifo_tail = no_slot;
  items_len = 0;
}

abbrev pub cdo_object_new : CdoObject
cdo_object_new = cdo_obj_alloc ObjectKind.obj_object

-- A slot of a new table: zeroed, then unlinked.
abbrev pub fresh_slot : ObjSlot
fresh_slot = record { key = 0; value = null; flags = 0; fifo_prev = no_slot; fifo_next = no_slot }

abbrev pub slot_at : List ObjSlot → ℕ → ObjSlot
slot_at slots i = get_or slots i fresh_slot

-- `p` is a 64-bit pointer, and the result is cut to 32 bits.
unfoldable pub ptr_hash : ℕ → ℕ
ptr_hash p =
    let a = bit_xor p (p / 2 ^ 16) in let b = a * 0x45d9f3b % 2 ^ 64 in u32 (bit_xor b (b / 2 ^ 16))

-- Where probing for a key starts, and the slot behind `h`.
unfoldable pub home : ℕ → ℕ → ℕ
home key cap = bit_and (ptr_hash key) (cap - 1)

unfoldable pub next : ℕ → ℕ → ℕ
next h cap = bit_and (h + 1) (cap - 1)

-- The loop of obj_lookup: the index found, and the best slot for an insertion.
unfoldable pub probe : List ObjSlot → ℕ → ℕ → ℕ → ℕ → ℕ → ℕ → Option (ℕ × ℕ)
probe slots cap key zero h start tomb = none
probe slots cap key (suc fuel) h start tomb =
    let here = (slot_at slots h).key in
    let tomb' = if (here == tombstone) && (tomb == no_slot) then h else tomb in
    let h' = next h cap in
    let rest = probe slots cap key fuel h' start tomb' in
    if here == key
    then some (h, h)
    else if here == 0
    then some (no_slot, (if tomb == no_slot then h else tomb))
    else if h' == start
    then some (no_slot, tomb')
    else rest

unfoldable pub obj_lookup : CdoObject → ℕ → Option (ℕ × ℕ)
unfolding probe
obj_lookup obj key =
    if obj.slot_cap == 0
    then some (no_slot, no_slot)
    else (let h = home key obj.slot_cap in
        probe obj.slots obj.slot_cap key obj.slot_cap h h no_slot)

-- The slots with the ends of the insertion-order list.
pub record Ring : Type 0 where
  pub slots : List ObjSlot
  pub head : ℕ
  pub tail : ℕ

-- A field goes into slot `h` and to the end of the list.
unfoldable pub append_slot : Ring → ℕ → ℕ → CdoValue → ℕ → Ring
append_slot r h key value flags =
    let entry : ObjSlot = record {
      key = key;
      value = value;
      flags = flags;
      fifo_prev = r.tail;
      fifo_next = no_slot;
    } in
    let slots : List ObjSlot = set r.slots h entry in
    record {
      slots =
          if r.head == no_slot
          then slots
          else set slots r.tail (record (slot_at slots r.tail) { fifo_next = h });
      head = if r.head == no_slot then h else r.head;
      tail = h;
    }

-- `while (new_slots[h].key != NULL) h = (h + 1) & (new_cap - 1);`
unfoldable pub first_empty : List ObjSlot → ℕ → ℕ → ℕ → Option ℕ
first_empty slots cap zero h = none
first_empty slots cap (suc fuel) h =
    let rest = first_empty slots cap fuel (next h cap) in
    if (slot_at slots h).key == 0 then some h else rest

-- The loop of obj_rehash along the insertion order of the old slots.
unfoldable pub rehash_from : List ObjSlot → ℕ → ℕ → ℕ → Ring → Option Ring
unfolding append_slot first_empty
rehash_from old new_cap zero idx r = if idx == no_slot then some r else none
rehash_from old new_cap (suc fuel) idx r =
    let s = slot_at old idx in
    let rest : Option Ring = elim (first_empty r.slots new_cap new_cap (home s.key new_cap)) [
      | none ↦ none
      | some h ↦ rehash_from old new_cap fuel s.fifo_next (append_slot r h s.key s.value s.flags)
    ] in
    if idx == no_slot then some r else rest

abbrev pub with_ring : CdoObject → ℕ → Ring → CdoObject
with_ring obj new_cap r = record obj {
  slots = r.slots;
  slot_cap = new_cap;
  tombstone_count = 0;
  fifo_head = r.head;
  fifo_tail = r.tail;
}

unfoldable pub obj_rehash : CdoObject → ℕ → Option CdoObject
obj_rehash obj new_cap = Option.map (with_ring obj new_cap) (
    rehash_from obj.slots new_cap obj.slot_cap obj.fifo_head
      (record { slots = replicate new_cap fresh_slot; head = no_slot; tail = no_slot }))

-- `while ((field_count + 1) * 4 > new_cap * 3) new_cap *= 2;`
unfoldable pub enough_cap : ℕ → ℕ → ℕ → Option ℕ
enough_cap fields zero new_cap = none
enough_cap fields (suc fuel) new_cap =
    let rest = enough_cap fields fuel (u32 (new_cap * 2)) in
    if ltb (u32 (new_cap * 3)) (u32 ((fields + 1) * 4)) then rest else some new_cap

unfoldable pub obj_ensure_capacity : CdoObject → Option CdoObject
obj_ensure_capacity obj =
    let used = obj.field_count + obj.tombstone_count + 1 in
    if (obj.slot_cap == 0) || ltb (u32 (obj.slot_cap * 3)) (u32 (used * 4))
    then (elim (enough_cap obj.field_count 32
        (if obj.slot_cap == 0 then 8 else u32 (obj.slot_cap * 2))) [
          | none ↦ none
          | some new_cap ↦ obj_rehash obj new_cap
        ])
    else some obj

-- The value found, if any.
unfoldable pub cdo_object_rawget : CdoObject → ℕ → Option (Option CdoValue)
cdo_object_rawget obj key = elim obj.kind [
  | ObjectKind.obj_object ↦ elim (obj_lookup obj key) [
    | none ↦ none
    | some (idx, _) ↦ some (if idx == no_slot then none else some (slot_at obj.slots idx).value)
  ]
  | _ ↦ some none
]

-- An existing field is overwritten in place, unless it is static.
unfoldable pub overwrite : CdoObject → ℕ → CdoValue → ℕ → Out
overwrite obj found val flags =
    let s = slot_at obj.slots found in
    if bit_and s.flags field_static == 0
    then record {
      obj = record obj { slots = set obj.slots found (record s { value = val; flags = flags }) };
      result = true;
      events = cdo_value_release s.value ++ cdo_value_copy val;
    }
    else record { obj = obj; result = false; events = [] }

-- A new field takes the slot that the lookup proposed.
unfoldable pub insert_new : CdoObject → ℕ → ℕ → CdoValue → ℕ → Out
unfolding append_slot
insert_new obj at key val flags =
    let r =
      append_slot (record { slots = obj.slots; head = obj.fifo_head; tail = obj.fifo_tail }) at key
        val flags in
    record {
      obj = record obj {
        slots = r.slots;
        field_count = u32 (obj.field_count + 1);
        tombstone_count =
            if (slot_at obj.slots at).key == tombstone
            then u32 (obj.tombstone_count + 2 ^ 32 - 1)
            else obj.tombstone_count;
        fifo_head = r.head;
        fifo_tail = r.tail;
      };
      result = true;
      events = cdo_value_copy val;
    }

unfoldable pub cdo_object_rawset : CdoObject → ℕ → CdoValue → ℕ → Option Out
cdo_object_rawset obj key val flags =
    if obj.readonly
    then some (record { obj = obj; result = false; events = [] })
    else (elim (obj_ensure_capacity obj) [
      | none ↦ none
      | some roomy ↦ elim (obj_lookup roomy key) [
        | none ↦ none
        | some (found, insert_at) ↦ some (
            if found == no_slot
            then insert_new roomy insert_at key val flags
            else overwrite roomy found val flags)
      ]
    ])

-- A link of slot `p` is redirected, unless `p` is no slot.
unfoldable pub set_next : List ObjSlot → ℕ → ℕ → List ObjSlot
set_next slots p n =
    if p == no_slot then slots else set slots p (record (slot_at slots p) { fifo_next = n })

unfoldable pub set_prev : List ObjSlot → ℕ → ℕ → List ObjSlot
set_prev slots n p =
    if n == no_slot then slots else set slots n (record (slot_at slots n) { fifo_prev = p })

-- The slot leaves the list and becomes a tombstone.
unfoldable pub unlink : CdoObject → ℕ → Out
unlink obj idx =
    let s = slot_at obj.slots idx in
    let both = set_prev (set_next obj.slots s.fifo_prev s.fifo_next) s.fifo_next s.fifo_prev in
    let dead : ObjSlot = record {
      key = tombstone;
      value = null;
      flags = field_none;
      fifo_prev = no_slot;
      fifo_next = no_slot;
    } in
    record {
      obj = record obj {
        slots = set both idx dead;
        field_count = u32 (obj.field_count + 2 ^ 32 - 1);
        tombstone_count = u32 (obj.tombstone_count + 1);
        fifo_head = if s.fifo_prev == no_slot then s.fifo_next else obj.fifo_head;
        fifo_tail = if s.fifo_next == no_slot then s.fifo_prev else obj.fifo_tail;
      };
      result = true;
      events = cdo_value_release s.value;
    }

unfoldable pub cdo_object_rawdelete : CdoObject → ℕ → Option Out
cdo_object_rawdelete obj key =
    if obj.readonly
    then some (record { obj = obj; result = false; events = [] })
    else (elim (obj_lookup obj key) [
      | none ↦ none
      | some (idx, _) ↦ some (
          if idx == no_slot
          then record { obj = obj; result = false; events = [] }
          else if bit_and (slot_at obj.slots idx).flags field_static == 0
          then unlink obj idx
          else record { obj = obj; result = false; events = [] })
    ])
