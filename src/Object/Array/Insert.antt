-- ===== src/Object/Array/Insert.antt =====
-- cdo_array_insert: the value stands at the clamped index, and what stood from there on moves up.
use can_do.Base.{
  ℕ, ◌+◌, ◌-◌, ◌^◌, ◌≤◌, ◌<◌, ◌≡◌, ◌≢◌, ltb, ◌==◌, if◌then◌else◌, not, List, ◌∷◌, ◌++◌, arith,
  length, get_or, set, take, drop, min, length-take, length-drop, length-append, length-set,
}
use can_do.Base.Cells.{get_or-take, get_or-drop, get_or-append, get_or-set}
use can_do.Object.Value.{CdoValue, null}
use can_do.Object.Array.{CdoArray, ensure_one, shift_right, cdo_array_insert}
use can_do.Object.Array.Contents.{IsValid, contents, length-contents, ensure_one-Grown}
use can_do.Object.Array.Shift.{length-shift_right, get_or-shift_right}
use can_do.Object.Array.Edit.{Edits, holds, get_or-contents}

-- What an insertion does to the list of elements.
unfoldable pub insert_at : ℕ → CdoValue → List CdoValue → List CdoValue
insert_at i v c = take i c ++ (v ∷ drop i c)

module _ (junk : ℕ → CdoValue) (a : CdoArray) (v : IsValid a) where
  module _ (val : CdoValue) (small : a.items_len < 2 ^ 31) where
    -- Where `cdo_array_insert` puts the value.
    clamped : ℕ → ℕ
    clamped idx = if ltb a.items_len idx then a.items_len else idx

    clamped-le : (idx : ℕ) → clamped idx ≤ a.items_len
    unfolding clamped
    clamped-le idx = ground arith

    opened : ℕ → List CdoValue
    opened at = let b = ensure_one junk a in shift_right (b.items_len - at) b.items_len b.items

    inserted : ℕ → CdoArray
    inserted at =
        let b = ensure_one junk a in
        record b { items = set (opened at) at val; items_len = b.items_len + 1 }

    length-opened : (at : ℕ) → length (opened at) ≡ length (ensure_one junk a).items
    unfolding opened
    length-opened at =
        let b = ensure_one junk a in length-shift_right (b.items_len - at) b.items_len b.items

    inserted-IsValid : (at : ℕ) → at ≤ a.items_len → IsValid (inserted at)
    unfolding inserted
    inserted-IsValid at h =
        let g = ensure_one-Grown junk a v small in
        record {
          cells = omega (arith, length-set (opened at) at val, length-opened at, g.valid);
          fits = omega (arith, g.room, g.len);
          word = g.valid.word;
        }

    get_or-opened :
        (at i : ℕ)
        → at ≤ a.items_len
        → i ≤ a.items_len
        → i ≢ at
        → get_or (opened at) i null
          ≡ (if ltb at i then get_or a.items (i - 1) null else get_or a.items i null)
    unfolding opened
    get_or-opened at i h l ne =
        let b = ensure_one junk a in
        let g = ensure_one-Grown junk a v small in
        ground (
          arith,
          g.len,
          g.room,
          g.valid,
          g.keeps i,
          g.keeps (i - 1),
          get_or-shift_right (b.items_len - at) b.items_len b.items i,
        )

    length-insert_at :
        (at : ℕ) → at ≤ a.items_len → length (insert_at at val (contents a)) ≡ a.items_len + 1
    unfolding insert_at
    length-insert_at at h =
        let c = contents a in
        omega (
          arith,
          length-contents a v,
          length-append (take at c) (val ∷ drop at c),
          length-take at c,
          length-drop at c,
        )

    get_or-insert_at :
        (at i : ℕ)
        → at ≤ a.items_len
        → get_or (insert_at at val (contents a)) i null ≡ (
            if ltb i at
            then get_or (contents a) i null
            else (if i == at then val else get_or (contents a) (i - 1) null))
    unfolding insert_at
    get_or-insert_at at i h =
        let c = contents a in
        let e : at + (i - at - 1) ≡ (if ltb at i then i - 1 else at) = ground arith in
        ground (
          arith,
          length-contents a v,
          length-take at c,
          get_or-append (take at c) (val ∷ drop at c) i null,
          get_or-take at c i null,
          get_or-drop at c (i - at - 1) null,
          e,
        )

    inserted-contents :
        (at : ℕ) → at ≤ a.items_len → contents (inserted at) ≡ insert_at at val (contents a)
    unfolding inserted
    inserted-contents at h =
        let b = ensure_one junk a in
        let g = ensure_one-Grown junk a v small in
        let n = length-insert_at at h in
        holds (inserted at) (insert_at at val (contents a)) (inserted-IsValid at h)
          (omega (arith, n, g.len))
          (λ i l. ground (
            arith,
            n,
            l,
            g.room,
            g.valid,
            length-opened at,
            get_or-set (opened at) at i val null,
            get_or-opened at i h,
            get_or-insert_at at i h,
            get_or-contents a i,
            get_or-contents a (i - 1),
          ))

    -- An insertion puts the value at the index, or at the end if the index lies beyond it.
    pub insert-Edits :
        (idx : ℕ)
        → ((cdo_array_insert junk a idx val).result ≡ not a.readonly)
          × Edits a
              (not a.readonly)
              (insert_at (min idx a.items_len) val (contents a))
              (cdo_array_insert junk a idx val).arr
    unfolding cdo_array_insert inserted opened clamped
    insert-Edits idx =
        let g = ensure_one-Grown junk a v small in
        let at = clamped idx in
        let h = clamped-le idx in
        let e : at ≡ min idx a.items_len = ground arith in
        (
          ground arith,
          record {
            valid = ground (arith, inserted-IsValid at h, v);
            flag = ground (arith, g.flag);
            view = ground (arith, inserted-contents at h, e);
          },
        )
