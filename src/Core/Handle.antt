-- ===== src/Core/Handle.antt =====
-- source/core/handle.c: the table of handles through which scripts name objects. A free slot keeps the
-- index of the next free slot in its pointer field. Each operation holds the table's lock throughout,
-- so it is one step here. `none` is a failed assertion, which aborts. Allocation succeeds.
pub mod FreeList
pub mod Laws
pub mod Marks
mod Tests
use can_do.Base.{
  ℕ, zero, suc, ◌+◌, ◌-◌, ◌*◌, ◌%◌, ◌^◌, ltb, ◌==◌, if◌then◌else◌, Bool, true, false, ◌&&◌, List,
  [], ◌∷◌, ◌++◌, map, Option, none, some, get_or, set,
}

-- CANDO_INVALID_HANDLE
abbrev pub invalid_handle : ℕ
invalid_handle = 2 ^ 32 - 1

-- CANDO_HANDLE_TABLE_INIT_CAP
abbrev pub table_init_cap : ℕ
table_init_cap = 256

pub record CandoHandleSlot : Type 0 where
  pub ptr : ℕ
  pub live : Bool
  pub marked : Bool

pub record CandoHandleTable : Type 0 where
  pub slots : List CandoHandleSlot
  pub capacity : ℕ
  pub count : ℕ
  pub free_head : ℕ

-- What an access outside the slots would read: a free slot without a successor.
abbrev pub no_handle_slot : CandoHandleSlot
no_handle_slot = record { ptr = invalid_handle; live = false; marked = false }

abbrev pub handle_at : List CandoHandleSlot → ℕ → CandoHandleSlot
handle_at slots i = get_or slots i no_handle_slot

unfoldable pub slot_next_free : CandoHandleSlot → ℕ
slot_next_free s = s.ptr % 2 ^ 32

-- `n` new slots from index `i` on, each free and before the next one; the last is before `last`.
unfoldable pub chain_slots : ℕ → ℕ → ℕ → List CandoHandleSlot
chain_slots i zero last = []
chain_slots i (suc n) last =
    let after = if n == 0 then last else i + 1 in
    record { ptr = after; live = false; marked = false } ∷ chain_slots (i + 1) n last

unfoldable pub cando_handle_table_init : ℕ → CandoHandleTable
unfolding chain_slots
cando_handle_table_init initial_cap =
    let cap = if initial_cap == 0 then table_init_cap else initial_cap in
    record { slots = chain_slots 0 cap invalid_handle; capacity = cap; count = 0; free_head = 0 }

unfoldable pub handle_table_grow : CandoHandleTable → CandoHandleTable
unfolding chain_slots
handle_table_grow t =
    let new_cap = t.capacity * 2 % 2 ^ 32 in
    record t {
      slots = t.slots ++ chain_slots t.capacity (new_cap - t.capacity) t.free_head;
      free_head = t.capacity;
      capacity = new_cap;
    }

-- The table and the index of the new handle.
unfoldable pub cando_handle_alloc : CandoHandleTable → ℕ → CandoHandleTable × ℕ
unfolding handle_table_grow slot_next_free
cando_handle_alloc t ptr =
    let b = if t.free_head == invalid_handle then handle_table_grow t else t in
    let idx = b.free_head in
    (
      record b {
        free_head = slot_next_free (handle_at b.slots idx);
        slots = set b.slots idx (record { ptr = ptr; live = true; marked = false });
        count = (b.count + 1) % 2 ^ 32;
      },
      idx,
    )

-- `idx < t->capacity` and `t->slots[idx].live`.
unfoldable pub is_live : CandoHandleTable → ℕ → Bool
is_live t idx = ltb idx t.capacity && (handle_at t.slots idx).live

unfoldable pub cando_handle_get : CandoHandleTable → ℕ → Option ℕ
cando_handle_get t idx = if is_live t idx then some (handle_at t.slots idx).ptr else none

unfoldable pub cando_handle_set : CandoHandleTable → ℕ → ℕ → Option CandoHandleTable
cando_handle_set t idx ptr =
    if is_live t idx
    then some (record t { slots = set t.slots idx (record (handle_at t.slots idx) { ptr = ptr }) })
    else none

unfoldable pub cando_handle_free : CandoHandleTable → ℕ → Option CandoHandleTable
cando_handle_free t idx =
    if is_live t idx
    then some (record t {
      slots = set t.slots idx (record { ptr = t.free_head; live = false; marked = false });
      free_head = idx;
      count = (t.count + 2 ^ 32 - 1) % 2 ^ 32;
    })
    else none

unfoldable pub cando_handle_mark : CandoHandleTable → ℕ → Option CandoHandleTable
cando_handle_mark t idx =
    if is_live t idx
    then some
        (record t { slots = set t.slots idx (record (handle_at t.slots idx) { marked = true }) })
    else none

abbrev pub unmark : CandoHandleSlot → CandoHandleSlot
unmark s = record s { marked = false }

unfoldable pub cando_handle_clear_marks : CandoHandleTable → CandoHandleTable
cando_handle_clear_marks t = record t { slots = map unmark t.slots }

unfoldable pub cando_handle_is_marked : CandoHandleTable → ℕ → Option Bool
cando_handle_is_marked t idx = if is_live t idx then some (handle_at t.slots idx).marked else none
