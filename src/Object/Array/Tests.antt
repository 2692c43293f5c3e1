-- ===== src/Object/Array/Tests.antt =====
-- The array operations run on small arrays, and the theorems about them applied there.
use can_do.Base.{
  ℕ, ◌+◌, ◌≡◌, refl, ltb, if◌then◌else◌, Bool, true, false, not, ◌&&◌, [], ◌∷◌, ◌++◌, none, some,
  arith, get_elem?, get_or, min,
}
use can_do.Base.Doubling.{double_until}
use can_do.Object.Value.{
  CdoValue, null, number, string, RefEvent, released, retained, total_refs, retains, releases,
  cdo_value_copy, cdo_value_release,
}
use can_do.Object.Array.{
  CdoArray, Out, realloc, fill_null, shift_right, shift_left, cdo_array_push, cdo_array_rawget_idx,
  cdo_array_rawset_idx, cdo_array_insert, cdo_array_remove, ensure_one, grow_to, rawset_grow,
  rawset_extend,
}
use can_do.Object.Array.Contents.{IsValid, contents}
use can_do.Object.Array.Edit.{Edits, push-Edits}
use can_do.Object.Array.Insert.{insert_at, insert-Edits}
use can_do.Object.Array.Remove.{remove_at, removes, remove-Edits}
use can_do.Object.Array.Put.{put_at, rawset_idx-Edits}
use can_do.Object.Array.Ownership.{
  given, IsBalanced, grow-IsBalanced, rawset_idx-balance, remove-balance,
}

abbrev zeros : ℕ → CdoValue
zeros n = number 0

-- Two strings in a block of four cells; the third cell still holds the string at 9.
abbrev pair : CdoArray
pair = record {
  readonly = false;
  items = string 7 ∷ string 8 ∷ string 9 ∷ null ∷ [];
  items_len = 2;
  items_cap = 4;
}

pair-IsValid : IsValid pair
pair-IsValid = omega arith

everything : Unit {0}
unfolding realloc fill_null shift_right shift_left cdo_array_push cdo_array_rawget_idx
    cdo_array_rawset_idx cdo_array_insert cdo_array_remove ensure_one grow_to rawset_grow
    rawset_extend double_until cdo_value_copy cdo_value_release
everything = tt

insert_front : contents (cdo_array_insert zeros pair 0 null).arr ≡ null ∷ string 7 ∷ string 8 ∷ []
unfolding everything
insert_front = refl

remove_front : contents (cdo_array_remove pair 0 true).arr ≡ string 8 ∷ []
unfolding everything
remove_front = refl

-- The store at 2 releases the string at 9, which no element holds.
store_past_end :
    cdo_array_rawset_idx zeros pair 2 (number 1)
    ≡ some (record {
      arr = record {
        readonly = false;
        items = string 7 ∷ string 8 ∷ number 1 ∷ null ∷ [];
        items_len = 3;
        items_cap = 4;
      };
      result = true;
      events = released 9 ∷ [];
    })
unfolding everything
store_past_end = refl

push-Edits_example :
    ((cdo_array_push zeros pair (string 5)).result ≡ not pair.readonly)
    × Edits pair
        (not pair.readonly)
        (contents pair ++ (string 5 ∷ []))
        (cdo_array_push zeros pair (string 5)).arr
push-Edits_example = push-Edits zeros pair pair-IsValid (string 5) (omega arith)

insert-Edits_example :
    ((cdo_array_insert zeros pair 1 (string 5)).result ≡ not pair.readonly)
    × Edits pair
        (not pair.readonly)
        (insert_at (min 1 pair.items_len) (string 5) (contents pair))
        (cdo_array_insert zeros pair 1 (string 5)).arr
insert-Edits_example = insert-Edits zeros pair pair-IsValid (string 5) (omega arith) 1

remove-Edits_example :
    ((cdo_array_remove pair 0 true).result
      ≡ (if removes pair pair-IsValid 0 then get_elem? (contents pair) 0 else none))
    × Edits pair
        (removes pair pair-IsValid 0)
        (remove_at 0 (contents pair))
        (cdo_array_remove pair 0 true).arr
remove-Edits_example = remove-Edits pair pair-IsValid 0 true

rawset_idx-Edits_example :
    (o : Out Bool) × (cdo_array_rawset_idx zeros pair 20 (string 5) ≡ some o)
    × (o.result ≡ not pair.readonly)
    × Edits pair (not pair.readonly) (put_at 20 (string 5) (contents pair)) o.arr
rawset_idx-Edits_example = rawset_idx-Edits zeros pair pair-IsValid (string 5) 20 (omega arith)

grow-IsBalanced_example :
    IsBalanced pair (cdo_array_push zeros pair (string 7)) 7
    × IsBalanced pair (cdo_array_insert zeros pair 1 (string 7)) 7
grow-IsBalanced_example = grow-IsBalanced zeros pair pair-IsValid (string 7) 7 (omega arith) 1

rawset_idx-balance_example :
    (o : Out Bool) × (cdo_array_rawset_idx zeros pair 2 (number 1) ≡ some o)
    × (total_refs 9 (contents o.arr) + releases 9 o.events
        ≡ total_refs 9 (contents pair)
          + retains 9 o.events
          + (if not (ltb 2 pair.items_len) && ltb 2 pair.items_cap
              then can_do.Object.Value.refs 9 (get_or pair.items 2 null)
              else 0))
rawset_idx-balance_example =
    rawset_idx-balance zeros pair pair-IsValid (number 1) 9 2 (omega arith) refl

remove-balance_example :
    total_refs 7 (contents (cdo_array_remove pair 0 true).arr)
      + releases 7 (cdo_array_remove pair 0 true).events
      + (if true then given 7 (cdo_array_remove pair 0 true).result else 0)
    ≡ total_refs 7 (contents pair) + retains 7 (cdo_array_remove pair 0 true).events
remove-balance_example = remove-balance pair 0 true 7 pair-IsValid
