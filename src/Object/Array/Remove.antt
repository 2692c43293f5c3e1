-- ===== src/Object/Array/Remove.antt =====
-- cdo_array_remove: the element at the index goes out, and what stood behind it moves down.
use can_do.Base.{
  ℕ, ◌+◌, ◌-◌, ◌<◌, ◌≡◌, ltb, if◌then◌else◌, Bool, false, not, ◌&&◌, List, ◌++◌, none, arith,
  dec_lt, length, get_or, get_elem?, take, drop, length-take, length-drop, length-append,
}
use can_do.Base.Cells.{get_or-take, get_or-drop, get_or-append, get_elem?-get_or}
use can_do.Object.Value.{CdoValue, null}
use can_do.Object.Array.{CdoArray, shift_left, cdo_array_remove}
use can_do.Object.Array.Contents.{IsValid, contents, length-contents}
use can_do.Object.Array.Shift.{length-shift_left, get_or-shift_left}
use can_do.Object.Array.Edit.{Edits, holds, get_or-contents}

-- What a removal does to the list of elements.
unfoldable pub remove_at : ℕ → List CdoValue → List CdoValue
remove_at i c = take i c ++ drop (i + 1) c

module _ (a : CdoArray) (v : IsValid a) (idx : ℕ) where
  closed : CdoArray
  closed = record a {
    items = shift_left (a.items_len - 1 - idx) idx a.items;
    items_len = a.items_len - 1;
  }

  closed-IsValid : idx < a.items_len → IsValid closed
  unfolding closed
  closed-IsValid h =
      let len = length-shift_left (a.items_len - 1 - idx) idx a.items in
      record { cells = omega (arith, len, v); fits = omega (arith, v); word = v.word }

  length-remove_at : idx < a.items_len → length (remove_at idx (contents a)) ≡ a.items_len - 1
  unfolding remove_at
  length-remove_at h =
      let c = contents a in
      omega (
        arith,
        length-contents a v,
        length-append (take idx c) (drop (idx + 1) c),
        length-take idx c,
        length-drop (idx + 1) c,
      )

  get_or-remove_at :
      (i : ℕ)
      → idx < a.items_len
      → get_or (remove_at idx (contents a)) i null
        ≡ (if ltb i idx then get_or (contents a) i null else get_or (contents a) (i + 1) null)
  unfolding remove_at
  get_or-remove_at i h =
      let c = contents a in
      let e : ltb i idx ≡ false → idx + 1 + (i - idx) ≡ i + 1 = λ q. ground arith in
      ground (
        arith,
        length-contents a v,
        length-take idx c,
        get_or-append (take idx c) (drop (idx + 1) c) i null,
        get_or-take idx c i null,
        get_or-drop (idx + 1) c (i - idx) null,
        e,
      )

  closed-contents : idx < a.items_len → contents closed ≡ remove_at idx (contents a)
  unfolding closed
  closed-contents h =
      let n = length-remove_at h in
      holds closed (remove_at idx (contents a)) (closed-IsValid h) n (λ i l. ground (
        arith,
        n,
        l,
        v,
        get_or-shift_left (a.items_len - 1 - idx) idx a.items i (omega arith),
        get_or-remove_at i h,
        get_or-contents a i,
        get_or-contents a (i + 1),
      ))

  abbrev pub removes : Bool
  removes = not a.readonly && ltb idx a.items_len

  -- A removal hands out the element at the index and closes the gap; a readonly array or an index
  -- out of range changes nothing.
  pub remove-Edits :
      (wanted : Bool)
      → ((cdo_array_remove a idx wanted).result
          ≡ (if removes then get_elem? (contents a) idx else none))
        × Edits a removes (remove_at idx (contents a)) (cdo_array_remove a idx wanted).arr
  unfolding cdo_array_remove closed
  remove-Edits wanted = elim (dec_lt idx a.items_len) [
    | yes h ↦
        let elem = get_elem?-get_or (contents a) idx null (omega (arith, length-contents a v)) in
        (
          ground (arith, h, elem, get_or-contents a idx),
          record {
            valid = ground (arith, h, closed-IsValid h, v);
            flag = ground arith;
            view = ground (arith, h, closed-contents h);
          },
        )
    | no h ↦ (
      ground (arith, h),
      record { valid = ground (arith, h, v); flag = ground arith; view = ground (arith, h) },
    )
  ]
