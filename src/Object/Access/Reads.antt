-- ===== src/Object/Access/Reads.antt =====
-- Reading an object that models a list of fields.
use can_do.Base.{
  ℕ, zero, suc, ◌≤◌, ◌<◌, ◌≡◌, inl, refl, sym, ap, ◌∙◌, ◌==◌, if◌then◌else◌, Bool, true, false,
  List, [], ◌∷◌, Option, none, some, arith, length,
}
use mathlib.Core.Option
use mathlib.Core.Path.{subst}
use can_do.Object.Value.{CdoValue}
use can_do.Object.Fields.{
  no_slot, ObjSlot, slot_at, ObjectKind, CdoObject, cdo_object_new, obj_lookup, cdo_object_rawget,
}
use can_do.Object.Fields.Order.{first, Linked, Field, fields_of}
use can_do.Object.Fields.Models.{count_tombs, Models, lookup_field, found, missing, locate}
use can_do.Object.Fields.Capacity.{length_lt}
use can_do.Object.Access.{foreach_from, cdo_object_foreach}

-- The value under a name.
abbrev pub value_of : ℕ → List Field → Option CdoValue
value_of key fields = Option.map (λ (f : Field). f.value) (lookup_field key fields)

-- A new object has no fields.
pub new-Models : Models cdo_object_new []
unfolding count_tombs
new-Models = record {
  order = [];
  is_order = record {
    linked = tt;
    distinct = tt;
    starts = refl;
    ends = refl;
    covers = λ i l alive. absurd (omega arith);
  };
  reads = refl;
  count = refl;
  tombs = refl;
  shape = inl (refl, refl);
  load = omega arith;
}

-- A callback run over fields in turn, until it asks to stop.
unfoldable pub visit {ℓ} : {S : Type ℓ} → (ℕ → CdoValue → ℕ → S → S × Bool) → List Field → S → S
visit fn [] s = s
visit fn (f ∷ fs) s =
    let after = fn f.name f.value f.flags s in
    let rest = visit fn fs after.0 in if after.1 then rest else after.0

length-fields_of : (slots : List ObjSlot) (L : List ℕ) → length (fields_of slots L) ≡ length L
length-fields_of slots [] = refl
length-fields_of slots (i ∷ L) = ap suc (length-fields_of slots L)

some_if {ℓ} :
    {A : Type ℓ} (b : Bool) (x y : A) → (if b then some x else some y) ≡ some (if b then x else y)
some_if true x y = refl
some_if false x y = refl

foreach_run {ℓ} :
    {S : Type ℓ} (fn : ℕ → CdoValue → ℕ → S → S × Bool) (obj : CdoObject) (fuel p : ℕ) (L : List ℕ)
    (s : S)
    → length obj.slots ≤ no_slot
    → length L ≤ fuel
    → Linked obj.slots p L
    → foreach_from fn obj fuel (first L) s ≡ some (visit fn (fields_of obj.slots L) s)
unfolding foreach_from visit
foreach_run fn obj zero p [] s small fits linked = refl
foreach_run fn obj (suc fuel) p [] s small fits linked = refl
foreach_run fn obj zero p (i ∷ L) s small fits linked = absurd (omega (arith, fits))
foreach_run fn obj (suc fuel) p (i ∷ L) s small fits linked =
    let il = linked.0 in
    let live : (i == no_slot) ≡ false = ground (arith, il, small) in
    let slot = slot_at obj.slots i in
    let after = fn slot.key slot.value slot.flags s in
    let rest : foreach_from fn obj fuel slot.fifo_next after.0
        ≡ some (visit fn (fields_of obj.slots L) after.0) =
      subst
        (λ (n : ℕ).
          foreach_from fn obj fuel n after.0 ≡ some (visit fn (fields_of obj.slots L) after.0))
        (sym linked.3) (foreach_run fn obj fuel i L after.0 small (omega (arith, fits)) linked.4) in
    rw (live, rest) (some_if after.1 (visit fn (fields_of obj.slots L) after.0) after.0)

module _ {obj : CdoObject} {fields : List Field} (m : Models obj fields) where
  rawget_run :
      (key idx p : ℕ)
      → obj.kind ≡ ObjectKind.obj_object
      → obj_lookup obj key ≡ some (idx, p)
      → cdo_object_rawget obj key
        ≡ some (if idx == no_slot then none else some (slot_at obj.slots idx).value)
  unfolding cdo_object_rawget
  rawget_run key idx p plain look = ground (arith, plain, look)

  -- A raw read of a plain object with a legal key returns the value of the field of that name, or
  -- nothing if there is none.
  pub rawget-eq-value_of :
      (key : ℕ)
      → 1 < key
      → obj.kind ≡ ObjectKind.obj_object
      → cdo_object_rawget obj key ≡ some (value_of key fields)
  rawget-eq-value_of key live plain = elim (locate m key live) [
    | missing p absent look none_there ↦ rawget_run key no_slot p plain look ∙ rw none_there
    | found i il at member only look there ↦
        let small = length_lt m in
        let pick : (i == no_slot) ≡ false = ground (arith, il, small) in
        rawget_run key i i plain look ∙ rw (pick, there)
  ]

  -- Iteration over an object returns and hands the callback its fields, in insertion order and up to
  -- the first on which the callback asks to stop.
  pub foreach-eq-visit {ℓ} :
      {S : Type ℓ} (fn : ℕ → CdoValue → ℕ → S → S × Bool) (s : S)
      → cdo_object_foreach fn obj s ≡ some (visit fn fields s)
  unfolding cdo_object_foreach
  foreach-eq-visit fn s =
      let small = length_lt m in
      ap (λ (t : ℕ). foreach_from fn obj obj.slot_cap t s) m.is_order.starts
      ∙ foreach_run fn obj obj.slot_cap no_slot m.order s (omega (arith, small))
          (omega (arith, m.load, m.count)) m.is_order.linked
      ∙ ap (λ (t : List Field). some (visit fn t s)) m.reads
