-- ===== src/Object/Array.antt =====
-- source/object/array.c: the dense items of an OBJ_ARRAY object. `items` is the allocated block, cell
-- by cell, of which the first `items_len` are in use. Each operation runs under the object's lock, so
-- it is one step here. The cells that `realloc` adds hold whatever memory held: `junk`.
pub mod Contents
pub mod Shift
pub mod Edit
pub mod Insert
pub mod Remove
pub mod Put
pub mod Ownership
mod Tests
use can_do.Base.{
  ℕ, zero, suc, ◌+◌, ◌-◌, ◌*◌, ◌%◌, ◌^◌, ltb, leb, ◌==◌, if◌then◌else◌, Bool, true, false, ◌||◌,
  List, [], ◌∷◌, ◌++◌, Option, none, some, length, get_or, set, take,
}
use mathlib.Core.Option
use can_do.Base.Doubling.{double_until}
use can_do.Object.Value.{CdoValue, null, RefEvent, cdo_value_copy, cdo_value_release}

pub record CdoArray : Type 0 where
  pub readonly : Bool
  pub items : List CdoValue
  pub items_len : ℕ
  pub items_cap : ℕ

-- What an operation leaves: the array, its result, and what it did to the reference counts.
pub record Out (R : Type 0) : Type 0 where
  pub arr : CdoArray
  pub result : R
  pub events : List RefEvent

abbrev pub cdo_array_new : CdoArray
cdo_array_new = record { readonly = false; items = []; items_len = 0; items_cap = 0 }

-- `cando_realloc`: the old cells as far as they fit, then cells with no particular contents.
pub realloc : (ℕ → CdoValue) → List CdoValue → ℕ → List CdoValue
realloc junk [] zero = []
realloc junk [] (suc n) = junk n ∷ realloc junk [] n
realloc junk (v ∷ vs) zero = []
realloc junk (v ∷ vs) (suc n) = v ∷ realloc junk vs n

-- `items[from .. from + n) = cdo_null()`
pub fill_null : ℕ → ℕ → List CdoValue → List CdoValue
fill_null zero from cells = cells
fill_null (suc n) from cells = fill_null n (from + 1) (set cells from null)

-- The growth step that `cdo_array_push` and `cdo_array_insert` share.
unfoldable pub ensure_one : (ℕ → CdoValue) → CdoArray → CdoArray
ensure_one junk a =
    if leb a.items_cap a.items_len
    then (let new_cap = if a.items_cap == 0 then 8 else a.items_cap * 2 % 2 ^ 32 in
        record a { items = realloc junk a.items new_cap; items_cap = new_cap })
    else a

unfoldable pub cdo_array_push : (ℕ → CdoValue) → CdoArray → CdoValue → Out Bool
cdo_array_push junk a val =
    if a.readonly
    then record { arr = a; result = false; events = [] }
    else (let b = ensure_one junk a in
        record {
          arr = record b { items = set b.items b.items_len val; items_len = b.items_len + 1 };
          result = true;
          events = cdo_value_copy val;
        })

unfoldable pub cdo_array_rawget_idx : CdoArray → ℕ → Option CdoValue
cdo_array_rawget_idx a idx = if ltb idx a.items_len then some (get_or a.items idx null) else none

unfoldable pub cdo_array_len : CdoArray → ℕ
cdo_array_len a = a.items_len

-- `cdo_array_rawset_idx` on a larger block: the new cells are nulled, as the loop there does.
unfoldable pub grow_to : (ℕ → CdoValue) → CdoArray → ℕ → CdoArray
grow_to junk a new_cap = record a {
  items = fill_null (new_cap - a.items_cap) a.items_cap (realloc junk a.items new_cap);
  items_cap = new_cap;
}

-- The capacity that `cdo_array_rawset_idx` reallocates to; 32 doublings of a 32-bit word, after which
-- it is 0 for good.
unfoldable pub rawset_grow : (ℕ → CdoValue) → CdoArray → ℕ → Option CdoArray
rawset_grow junk a idx =
    if leb a.items_cap idx
    then Option.map (grow_to junk a)
        (double_until 32 32 (if a.items_cap == 0 then 8 else a.items_cap) (idx + 1))
    else some a

unfoldable pub rawset_extend : CdoArray → ℕ → CdoArray
rawset_extend a idx =
    if leb a.items_len idx
    then record a { items = fill_null (idx - a.items_len) a.items_len a.items; items_len = idx + 1 }
    else a

-- `none`: the call does not return, since no 32-bit capacity exceeds `idx`.
unfoldable pub cdo_array_rawset_idx : (ℕ → CdoValue) → CdoArray → ℕ → CdoValue → Option (Out Bool)
cdo_array_rawset_idx junk a idx val =
    if a.readonly
    then some (record { arr = a; result = false; events = [] })
    else (elim (rawset_grow junk a idx) [
      | none ↦ none
      | some b ↦
          let c = rawset_extend b idx in
          some (record {
            arr = record c { items = set c.items idx val };
            result = true;
            events = cdo_value_release (get_or c.items idx null) ++ cdo_value_copy val;
          })
    ])

-- `for (i; n rounds; i--) items[i] = items[i - 1]`
pub shift_right : ℕ → ℕ → List CdoValue → List CdoValue
shift_right zero i cells = cells
shift_right (suc n) i cells = shift_right n (i - 1) (set cells i (get_or cells (i - 1) null))

-- `for (i; n rounds; i++) items[i] = items[i + 1]`
pub shift_left : ℕ → ℕ → List CdoValue → List CdoValue
shift_left zero i cells = cells
shift_left (suc n) i cells = shift_left n (i + 1) (set cells i (get_or cells (i + 1) null))

unfoldable pub cdo_array_insert : (ℕ → CdoValue) → CdoArray → ℕ → CdoValue → Out Bool
cdo_array_insert junk a idx val =
    if a.readonly
    then record { arr = a; result = false; events = [] }
    else (let at = if ltb a.items_len idx then a.items_len else idx in
        let b = ensure_one junk a in
        let moved = shift_right (b.items_len - at) b.items_len b.items in
        record {
          arr = record b { items = set moved at val; items_len = b.items_len + 1 };
          result = true;
          events = cdo_value_copy val;
        })

-- `wanted` says whether the caller passed `out`; the element goes there, and its reference with it.
unfoldable pub cdo_array_remove : CdoArray → ℕ → Bool → Out (Option CdoValue)
cdo_array_remove a idx wanted =
    if a.readonly || leb a.items_len idx
    then record { arr = a; result = none; events = [] }
    else (let gone = get_or a.items idx null in
        record {
          arr = record a {
            items = shift_left (a.items_len - 1 - idx) idx a.items;
            items_len = a.items_len - 1;
          };
          result = some gone;
          events = if wanted then [] else cdo_value_release gone;
        })
