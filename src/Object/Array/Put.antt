-- ===== src/Object/Array/Put.antt =====
-- cdo_array_rawset_idx: an element is replaced, or the array is extended by nulls up to the index.
use can_do.Base.{
  ℕ, ◌+◌, ◌-◌, ◌^◌, ◌<◌, ◌≡◌, ltb, ◌==◌, if◌then◌else◌, Bool, true, false, not, List, [], ◌∷◌, ◌++◌,
  some, arith, length, get_or, set, replicate, length-append, length-set, length-replicate,
}
use can_do.Base.Cells.{get_or-take, get_or-append, get_or-set, get_or_out, get_or-replicate}
use can_do.Object.Value.{CdoValue, null, cdo_value_release, cdo_value_copy}
use can_do.Object.Array.{CdoArray, Out, rawset_extend, cdo_array_rawset_idx}
use can_do.Object.Array.Contents.{
  IsValid, contents, length-contents, Grown, rawset_grow-Grown, rawset_extend-Grown,
}
use can_do.Object.Array.Edit.{Edits, holds}

-- Past the end, nulls fill the gap.
unfoldable pub put_at : ℕ → CdoValue → List CdoValue → List CdoValue
put_at i v c =
    if ltb i (length c) then set c i v else c ++ (replicate (i - length c) null ++ (v ∷ []))

module _ (junk : ℕ → CdoValue) (a : CdoArray) (v : IsValid a) (val : CdoValue) (idx : ℕ) where
  unfoldable pub stored : CdoArray → CdoArray
  stored b = let c = rawset_extend b idx in record c { items = set c.items idx val }

  length-put_at :
      length (put_at idx val (contents a)) ≡ (if ltb idx a.items_len then a.items_len else idx + 1)
  unfolding put_at
  length-put_at =
      let c = contents a in
      let gap = replicate (idx - length c) null in
      ground (
        arith,
        length-contents a v,
        length-set c idx val,
        length-append c (gap ++ (val ∷ [])),
        length-append gap (val ∷ []),
        length-replicate (idx - length c) null,
      )

  get_or-put_at :
      (i : ℕ)
      → i < length (put_at idx val (contents a))
      → get_or (put_at idx val (contents a)) i null
        ≡ (if idx == i then val else get_or (contents a) i null)
  unfolding put_at
  get_or-put_at i h =
      let c = contents a in
      let n = idx - length c in
      let gap = replicate n null in
      ground (
        arith,
        length-put_at,
        h,
        length-contents a v,
        get_or-set c idx i val null,
        get_or-append c (gap ++ (val ∷ [])) i null,
        get_or-append gap (val ∷ []) (i - length c) null,
        length-replicate n null,
        get_or-replicate n (i - length c) null,
        get_or_out c i null,
      )

  module _ {b : CdoArray} (g : Grown a (idx + 1) b) where
    stored-IsValid : IsValid (stored b)
    unfolding stored
    stored-IsValid =
        let e = rawset_extend-Grown b idx g.valid (omega (arith, g.room)) in
        let c = rawset_extend b idx in
        record {
          cells = omega (arith, length-set c.items idx val, e.valid.cells);
          fits = e.valid.fits;
          word = e.valid.word;
        }

    pub stored-contents : contents (stored b) ≡ put_at idx val (contents a)
    unfolding stored
    stored-contents =
        let e = rawset_extend-Grown b idx g.valid (omega (arith, g.room)) in
        let c = rawset_extend b idx in
        holds (stored b) (put_at idx val (contents a)) stored-IsValid
          (ground (arith, length-put_at, e.len, g.len))
          (λ i l. ground (
            arith,
            l,
            length-put_at,
            e.len,
            g.len,
            e.inside,
            e.valid,
            g.keeps i,
            e.reads i,
            get_or-take b.items_len b.items i null,
            get_or-take a.items_len a.items i null,
            get_or-set c.items idx i val null,
            get_or-put_at i l,
          ))

  unfoldable pub outcome : CdoArray → Out Bool
  outcome b = if a.readonly then record { arr = a; result = false; events = [] } else record {
    arr = stored b;
    result = true;
    events = cdo_value_release (get_or (rawset_extend b idx).items idx null) ++ cdo_value_copy val;
  }

  pub rawset_idx-outcome :
      idx < 2 ^ 31
      → (b : CdoArray) × (cdo_array_rawset_idx junk a idx val ≡ some (outcome b))
        × Grown a (idx + 1) b
        × (get_or b.items idx null
            ≡ (if ltb idx a.items_cap then get_or a.items idx null else null))
  unfolding cdo_array_rawset_idx outcome stored
  rawset_idx-outcome small =
      let (b, run, g, cell) = rawset_grow-Grown junk a idx v small in
      (b, ground (arith, run), g, cell)

  -- Below 2^31 the call returns: it replaces the element at the index, or extends the array with
  -- nulls up to the index and the value; a readonly array stays as it is, with the result false.
  pub rawset_idx-Edits :
      idx < 2 ^ 31
      → (o : Out Bool) × (cdo_array_rawset_idx junk a idx val ≡ some o)
        × (o.result ≡ not a.readonly)
        × Edits a (not a.readonly) (put_at idx val (contents a)) o.arr
  unfolding outcome stored
  rawset_idx-Edits small =
      let (b, run, g, cell) = rawset_idx-outcome small in
      (
        outcome b,
        run,
        ground arith,
        record {
          valid = ground (arith, stored-IsValid g, v);
          flag =
              ground
                (arith, g.flag, (rawset_extend-Grown b idx g.valid (omega (arith, g.room))).flag);
          view = ground (arith, stored-contents g);
        },
      )
