-- ===== src/Object/Access/Chain.antt =====
-- cdo_object_get: the search along the chain of `__index` fields, against the chain written out as a
-- list of objects.
use can_do.Base.{
  ℕ, zero, suc, ◌<◌, ◌≡◌, refl, sym, ap, ◌∙◌, ◌==◌, if◌then◌else◌, ◌||◌, List, [], ◌∷◌, Option,
  none, some, arith,
}
use mathlib.Core.Path.{ap₂}
use can_do.Object.Value.{CdoValue}
use can_do.Object.Fields.{ObjectKind, CdoObject, cdo_object_rawget}
use can_do.Object.Fields.Order.{Field}
use can_do.Object.Fields.Models.{Models}
use can_do.Object.Access.{
  pointer_of, proto_depth_max, Level, hit, stop, climb, level, get_from, cdo_object_get,
}
use can_do.Object.Access.Reads.{value_of, rawget-eq-value_of}

-- What an object says of a name: only plain objects have fields of their own.
unfoldable pub own : CdoObject → List Field → ℕ → Option CdoValue
own obj fields key = elim obj.kind [ ObjectKind.obj_object ↦ value_of key fields | _ ↦ none ]

-- The object that `__index` names, unless it is NULL or the object itself.
unfoldable pub parent_of : ℕ → Option CdoValue → Option ℕ
parent_of cur none = none
parent_of cur (some v) = let up = pointer_of v in if (up == 0) || (up == cur) then none else some up

-- An object and its ancestors, `depth` objects at most.
unfoldable pub lineage : (ℕ → Option ℕ) → ℕ → ℕ → List ℕ
lineage parent zero cur = []
lineage parent (suc depth) cur =
    cur ∷ elim (parent cur) [ none ↦ [] | some up ↦ lineage parent depth up ]

-- The first value there is.
unfoldable pub first_value : (ℕ → Option CdoValue) → List ℕ → Option CdoValue
first_value read [] = none
first_value read (p ∷ ps) = elim (read p) [ some v ↦ some v | none ↦ first_value read ps ]

module _ (obj : CdoObject) (fields : List Field) (m : Models obj fields) (key : ℕ)
    (live : 1 < key) where
  read_kind :
      (k : ObjectKind) → obj.kind ≡ k → cdo_object_rawget obj key ≡ some (own obj fields key)
  unfolding cdo_object_rawget own
  read_kind ObjectKind.obj_object e =
      rawget-eq-value_of m key live e
      ∙ ap
          (λ (k : ObjectKind). some (elim k as (λ _. Option CdoValue) [
            | ObjectKind.obj_object ↦ value_of key fields
            | _ ↦ none
          ]))
          (sym e)
  read_kind ObjectKind.obj_array e = ground (arith, e)
  read_kind ObjectKind.obj_function e = ground (arith, e)
  read_kind ObjectKind.obj_native e = ground (arith, e)
  read_kind ObjectKind.obj_thread e = ground (arith, e)

  pub rawget-eq-own : cdo_object_rawget obj key ≡ some (own obj fields key)
  rawget-eq-own = read_kind obj.kind refl

-- The objects of a heap, each with the fields that it represents.
module _ (heap : ℕ → CdoObject) (fields : ℕ → List Field) where
  abbrev pub reads : ℕ → ℕ → Option CdoValue
  reads key p = own (heap p) (fields p) key

  abbrev pub parent : ℕ → ℕ → Option ℕ
  parent meta_index p = parent_of p (own (heap p) (fields p) meta_index)

module _ (heap : ℕ → CdoObject) (fields : ℕ → List Field)
    (ms : (p : ℕ) → Models (heap p) (fields p)) (meta_index key : ℕ) (meta_live : 1 < meta_index)
    (live : 1 < key) where
  -- What one level comes to, from the object's value and its `__index`.
  unfoldable level_of : ℕ → Option CdoValue → Option CdoValue → Level
  level_of cur (some v) meta = hit v
  level_of cur none meta = elim (parent_of cur meta) [ none ↦ stop | some up ↦ climb up ]

  -- One level, of the two reads.
  abbrev read_level : ℕ → Option (Option CdoValue) → Option (Option CdoValue) → Option Level
  read_level cur x y = elim x [
    | none ↦ none
    | some (some v) ↦ some (hit v)
    | some none ↦ elim y [
      | none ↦ none
      | some none ↦ some stop
      | some (some v) ↦
          some (if (pointer_of v == 0) || (pointer_of v == cur) then stop else climb (pointer_of v))
    ]
  ]

  pick_level :
      (cur : ℕ) (a b : Option CdoValue) → read_level cur (some a) (some b) ≡ some (level_of cur a b)
  unfolding level_of parent_of
  pick_level cur (some v) b = refl
  pick_level cur none none = refl
  pick_level cur none (some v) = ground arith

  level-eq-level_of :
      (cur : ℕ)
      → level heap meta_index key cur
        ≡ some (level_of cur (reads heap fields key cur) (own (heap cur) (fields cur) meta_index))
  unfolding level
  level-eq-level_of cur =
      ap₂ (read_level cur) (rawget-eq-own (heap cur) (fields cur) (ms cur) key live)
        (rawget-eq-own (heap cur) (fields cur) (ms cur) meta_index meta_live)
      ∙ pick_level cur (reads heap fields key cur) (own (heap cur) (fields cur) meta_index)

  go_on :
      (depth cur : ℕ) (a : Option CdoValue) (up : Option ℕ) (b : Option CdoValue)
      → parent_of cur b ≡ up
      → ((p : ℕ)
          → get_from heap meta_index key depth p
            ≡ some (
                first_value
                  (reads heap fields key)
                  (lineage (parent heap fields meta_index) depth p)))
      → (elim (level_of cur a b) as (λ _. Option (Option CdoValue)) [
        | hit v ↦ some (some v)
        | stop ↦ some none
        | climb p ↦ get_from heap meta_index key depth p
      ])
        ≡ some (elim a as (λ _. Option CdoValue) [
          | some v ↦ some v
          | none ↦ first_value (reads heap fields key) (elim up as (λ _. List ℕ) [
            | none ↦ []
            | some p ↦ lineage (parent heap fields meta_index) depth p
          ])
        ])
  unfolding level_of first_value
  go_on depth cur (some v) up b e ih = refl
  go_on depth cur none none b e ih = rw e refl
  go_on depth cur none (some p) b e ih = rw e (ih p)

  get_from-eq-first_value :
      (depth cur : ℕ)
      → get_from heap meta_index key depth cur
        ≡ some (
            first_value (reads heap fields key) (lineage (parent heap fields meta_index) depth cur))
  unfolding get_from first_value lineage
  get_from-eq-first_value zero cur = refl
  get_from-eq-first_value (suc depth) cur =
      rw (get_from, level-eq-level_of cur)
        (go_on depth cur (reads heap fields key cur) (parent heap fields meta_index cur)
          (own (heap cur) (fields cur) meta_index) refl (get_from-eq-first_value depth))

  -- On a heap whose objects all represent lists of fields, a lookup along the prototype chain returns:
  -- it gives the first value of the key among the object and its ancestors, of which the chain of
  -- `__index` values names 32 at most, a cycle's among them again and again.
  pub get-eq-first_value :
      (obj : ℕ)
      → cdo_object_get heap meta_index obj key
        ≡ some (
            first_value
              (reads heap fields key)
              (lineage (parent heap fields meta_index) proto_depth_max obj))
  unfolding cdo_object_get
  get-eq-first_value obj = get_from-eq-first_value proto_depth_max obj
