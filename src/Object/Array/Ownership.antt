-- ===== src/Object/Array/Ownership.antt =====
-- Who holds a reference to a string: the elements of an array count for it, and each operation
-- retains and releases as the elements come and go. The one exception is in cdo_array_rawset_idx,
-- which releases whatever stands in a cell that no element has reached.
use can_do.Base.{
  ℕ, zero, suc, ◌+◌, ◌-◌, ◌^◌, ◌<◌, ◌≡◌, refl, ap, ltb, if◌then◌else◌, Bool, false, not, ◌&&◌, List,
  [], ◌∷◌, ◌++◌, Option, none, some, arith, length, get_or, set, take, drop, replicate, min,
  take-append-drop,
}
use can_do.Base.Cells.{get_or-take, get_or_out}
use can_do.Object.Value.{
  CdoValue, null, refs, total_refs, retains, releases, cdo_value_copy, cdo_value_release,
  retains-copy, releases-copy, retains-release, releases-release, retains-append, releases-append,
  total_refs-append,
}
use can_do.Object.Array.{
  CdoArray, Out, rawset_extend, cdo_array_push, cdo_array_rawset_idx, cdo_array_insert,
  cdo_array_remove,
}
use can_do.Object.Array.Contents.{IsValid, contents, rawset_extend-cell}
use can_do.Object.Array.Edit.{push-Edits}
use can_do.Object.Array.Insert.{insert_at, insert-Edits}
use can_do.Object.Array.Remove.{remove_at, remove-Edits}
use can_do.Object.Array.Put.{put_at, stored, stored-contents, outcome, rawset_idx-outcome}

-- What the operation retains and releases is what the elements gain and lose.
abbrev pub IsBalanced : {R : Type 0} → CdoArray → Out R → ℕ → Type 0
IsBalanced a o s =
    total_refs s (contents o.arr) + releases s o.events
    ≡ total_refs s (contents a) + retains s o.events

module _ (s : ℕ) where
  total_refs-insert_at :
      (i : ℕ) (val : CdoValue) (c : List CdoValue)
      → total_refs s (insert_at i val c) ≡ total_refs s c + refs s val
  unfolding insert_at total_refs
  total_refs-insert_at i val c = omega (
    arith,
    total_refs-append s (take i c) (val ∷ drop i c),
    total_refs-append s (take i c) (drop i c),
    ap (total_refs s) (take-append-drop i c),
  )

  refs-drop :
      (i : ℕ) (c : List CdoValue)
      → total_refs s (drop i c) ≡ refs s (get_or c i null) + total_refs s (drop (i + 1) c)
  unfolding total_refs
  refs-drop zero [] = refl
  refs-drop zero (x ∷ c) = refl
  refs-drop (suc i) [] = ground arith
  refs-drop (suc i) (x ∷ c) = ground (arith, refs-drop i c)

  total_refs-remove_at :
      (i : ℕ) (c : List CdoValue)
      → total_refs s (remove_at i c) + refs s (get_or c i null) ≡ total_refs s c
  unfolding remove_at
  total_refs-remove_at i c = omega (
    arith,
    refs-drop i c,
    total_refs-append s (take i c) (drop (i + 1) c),
    total_refs-append s (take i c) (drop i c),
    ap (total_refs s) (take-append-drop i c),
  )

  total_refs-set :
      (c : List CdoValue) (i : ℕ) (val : CdoValue)
      → i < length c
      → total_refs s (set c i val) + refs s (get_or c i null) ≡ total_refs s c + refs s val
  unfolding total_refs
  total_refs-set [] i val h = absurd (omega arith)
  total_refs-set (x ∷ c) zero val h = omega arith
  total_refs-set (x ∷ c) (suc i) val h = omega (arith, total_refs-set c i val (omega arith))

  total_refs-nulls : (n : ℕ) → total_refs s (replicate n null) ≡ 0
  unfolding total_refs
  total_refs-nulls zero = refl
  total_refs-nulls (suc n) = omega (arith, total_refs-nulls n)

  total_refs-put_at :
      (i : ℕ) (val : CdoValue) (c : List CdoValue)
      → total_refs s (put_at i val c) + refs s (get_or c i null) ≡ total_refs s c + refs s val
  unfolding put_at
  total_refs-put_at i val c =
      let gap = replicate (i - length c) null in
      let last : total_refs s (val ∷ []) ≡ refs s val = unfold total_refs in omega arith in
      let empty : refs s null ≡ 0 = unfold refs in refl in
      ground (
        arith,
        last,
        empty,
        total_refs-set c i val,
        total_refs-nulls (i - length c),
        total_refs-append s c (gap ++ (val ∷ [])),
        total_refs-append s gap (val ∷ []),
        get_or_out c i null,
      )

-- The references that an operation hands to its caller.
pub given : ℕ → Option CdoValue → ℕ
unfolding refs
given s none = 0
given s (some v) = refs s v

module _ (junk : ℕ → CdoValue) (a : CdoArray) (v : IsValid a) (val : CdoValue) (s : ℕ) where
  module _ (small : a.items_len < 2 ^ 31) where
    push-IsBalanced : IsBalanced a (cdo_array_push junk a val) s
    unfolding cdo_array_push retains releases total_refs
    push-IsBalanced = ground (
      arith,
      (push-Edits junk a v val small).1.view,
      total_refs-append s (contents a) (val ∷ []),
      retains-copy s val,
      releases-copy s val,
    )

    insert-IsBalanced : (idx : ℕ) → IsBalanced a (cdo_array_insert junk a idx val) s
    unfolding cdo_array_insert retains releases
    insert-IsBalanced idx = ground (
      arith,
      (insert-Edits junk a v val small idx).1.view,
      total_refs-insert_at s (min idx a.items_len) val (contents a),
      retains-copy s val,
      releases-copy s val,
    )

    -- Pushing and inserting leave every string with as many counted references as elements hold.
    pub grow-IsBalanced :
        (idx : ℕ)
        → IsBalanced a (cdo_array_push junk a val) s
          × IsBalanced a (cdo_array_insert junk a idx val) s
    grow-IsBalanced idx = (push-IsBalanced, insert-IsBalanced idx)

  -- Storing at an index within the length is balanced. Beyond the length but within the block, the
  -- call also releases the string, if any, that a former element or foreign memory left in the cell.
  pub rawset_idx-balance :
      (idx : ℕ)
      → idx < 2 ^ 31
      → a.readonly ≡ false
      → (o : Out Bool) × (cdo_array_rawset_idx junk a idx val ≡ some o)
        × (total_refs s (contents o.arr) + releases s o.events
            ≡ total_refs s (contents a)
              + retains s o.events
              + (if not (ltb idx a.items_len) && ltb idx a.items_cap
                  then refs s (get_or a.items idx null)
                  else 0))
  unfolding outcome stored
  rawset_idx-balance idx small writable =
      let (b, run, g, cell) = rawset_idx-outcome junk a v val idx small in
      let gone = get_or (rawset_extend b idx).items idx null in
      let empty : refs s null ≡ 0 = unfold refs in refl in
      (
        outcome junk a v val idx b,
        run,
        ground (
          arith,
          writable,
          empty,
          v,
          cell,
          stored-contents junk a v val idx g,
          rawset_extend-cell a b idx g.valid (omega (arith, g.room)) g.len,
          total_refs-put_at s idx val (contents a),
          get_or-take a.items_len a.items idx null,
          retains-append s (cdo_value_release gone) (cdo_value_copy val),
          releases-append s (cdo_value_release gone) (cdo_value_copy val),
          retains-copy s val,
          releases-copy s val,
          retains-release s gone,
          releases-release s gone,
        ),
      )

-- A removal releases the element that leaves, or hands its reference to the caller.
pub remove-balance :
    (a : CdoArray) (idx : ℕ) (wanted : Bool) (s : ℕ)
    → IsValid a
    → total_refs s (contents (cdo_array_remove a idx wanted).arr)
        + releases s (cdo_array_remove a idx wanted).events
        + (if wanted then given s (cdo_array_remove a idx wanted).result else 0)
      ≡ total_refs s (contents a) + retains s (cdo_array_remove a idx wanted).events
unfolding cdo_array_remove retains releases given
remove-balance a idx wanted s v =
    let gone = get_or a.items idx null in
    let e = (remove-Edits a v idx wanted).1.view in
    ground (
      arith,
      e,
      total_refs-remove_at s idx (contents a),
      get_or-take a.items_len a.items idx null,
      retains-release s gone,
      releases-release s gone,
    )
