-- ===== src/Object/Fields/Rawset.antt =====
-- cdo_object_rawset: the call returns, and does to the fields what `write_field` says.
use can_do.Base.{
  ℕ, ◌≤◌, ◌<◌, ◌≡◌, ◌≢◌, inl, inr, refl, sym, ap, ◌∙◌, ◌==◌, if◌then◌else◌, bit_and, Bool, true,
  false, List, [], ◌∷◌, ◌++◌, none, some, arith, length, Bool-cases,
}
use mathlib.Core.Path.{subst}
use can_do.Object.Value.{CdoValue, cdo_value_copy, cdo_value_release}
use can_do.Object.Fields.{
  no_slot, field_static, slot_at, CdoObject, Out, obj_lookup, obj_ensure_capacity, overwrite,
  insert_new, cdo_object_rawset,
}
use can_do.Object.Fields.Probe.{key_at, obj_lookup_absent}
use can_do.Object.Fields.Order.{Field, field_at}
use can_do.Object.Fields.Models.{Models, lookup_field, found, missing, locate}
use can_do.Object.Fields.Capacity.{max_cap, Roomy, obj_ensure_capacity-Roomy}
use can_do.Object.Fields.Write.{
  write_field, replace_field, changed, changed-Models, insert_new-Models,
}

module _ (obj : CdoObject) (key : ℕ) (v : CdoValue) (flags : ℕ) where
  rawset_locked :
      obj.readonly ≡ true
      → cdo_object_rawset obj key v flags ≡ some (record { obj = obj; result = false; events = [] })
  unfolding cdo_object_rawset
  rawset_locked e = ground arith

  rawset_open :
      (o : CdoObject) (at p : ℕ)
      → obj.readonly ≡ false
      → obj_ensure_capacity obj ≡ some o
      → obj_lookup o key ≡ some (at, p)
      → cdo_object_rawset obj key v flags
        ≡ some (if at == no_slot then insert_new o p key v flags else overwrite o at v flags)
  unfolding cdo_object_rawset
  rawset_open o at p e run look = ground (arith, e, run, look)

overwrite_plain :
    (o : CdoObject) (i : ℕ) (v : CdoValue) (flags key : ℕ) (il : i < length o.slots)
    (at : key_at o.slots i ≡ key)
    → (bit_and (slot_at o.slots i).flags field_static == 0) ≡ true
    → ((overwrite o i v flags).result ≡ true)
      × ((overwrite o i v flags).obj ≡ record o { slots = changed o.slots key i v flags il at })
      × ((overwrite o i v flags).events
          ≡ cdo_value_release (slot_at o.slots i).value ++ cdo_value_copy v)
unfolding overwrite changed
overwrite_plain o i v flags key il at plain = (rw plain, rw plain, rw plain)

overwrite_static :
    (o : CdoObject) (i : ℕ) (v : CdoValue) (flags : ℕ)
    → (bit_and (slot_at o.slots i).flags field_static == 0) ≡ false
    → overwrite o i v flags ≡ record { obj = o; result = false; events = [] }
unfolding overwrite
overwrite_static o i v flags static = rw static

-- The outcome of a write, and what it leaves alone.
pub record Writes (obj : CdoObject) (spec : Bool × List Field) (o : Out) : Type 0 where
  pub result : o.result ≡ spec.0
  pub models : Models o.obj spec.1
  pub same : (o.obj.kind ≡ obj.kind) × (o.obj.readonly ≡ obj.readonly)

write_locked :
    (key : ℕ) (v : CdoValue) (flags : ℕ) (fields : List Field)
    → write_field true key v flags fields ≡ (false, fields)
unfolding write_field
write_locked key v flags fields = refl

write_new :
    (key : ℕ) (v : CdoValue) (flags : ℕ) (fields : List Field)
    → lookup_field key fields ≡ none
    → write_field false key v flags fields
      ≡ (true, fields ++ (record { name = key; value = v; flags = flags } ∷ []))
unfolding write_field
write_new key v flags fields e = rw e

write_static :
    (key : ℕ) (v : CdoValue) (flags : ℕ) (fields : List Field) (f : Field)
    → lookup_field key fields ≡ some f
    → (bit_and f.flags field_static == 0) ≡ false
    → write_field false key v flags fields ≡ (false, fields)
unfolding write_field
write_static key v flags fields f e t = rw (e, t)

write_old :
    (key : ℕ) (v : CdoValue) (flags : ℕ) (fields : List Field) (f : Field)
    → lookup_field key fields ≡ some f
    → (bit_and f.flags field_static == 0) ≡ true
    → write_field false key v flags fields ≡ (true, replace_field key v flags fields)
unfolding write_field
write_old key v flags fields f e t = rw (e, t)

module _ {obj : CdoObject} {fields : List Field} (m : Models obj fields) (key : ℕ) (live : 1 < key)
    (v : CdoValue) (flags : ℕ) (small : obj.slot_cap ≤ max_cap) where
  -- On the object with room made.
  write_open :
      (o : CdoObject)
      → obj.readonly ≡ false
      → obj_ensure_capacity obj ≡ some o
      → Roomy obj fields o
      → (out : Out) × (cdo_object_rawset obj key v flags ≡ some out)
        × Writes obj (write_field false key v flags fields) out
  unfolding insert_new
  write_open o e run r = elim (locate r.models key live) [
    | missing p absent look none_there ↦
        let away : (j : ℕ) → j < o.slot_cap → key_at o.slots j ≢ key =
          λ j l. absent j (omega (arith, l, r.probed.len)) in
        let q = obj_lookup_absent o r.probed key away in
        let spec = write_new key v flags fields none_there in
        (
          insert_new o q.0 key v flags,
          rawset_open obj key v flags o no_slot q.0 e run q.1,
          record {
            result = rw spec refl;
            models = rw spec (
                insert_new-Models r.models key v flags q.0 r.probed r.room (omega (arith, r.bound))
                  live away q.2);
            same = (r.same.0, r.same.1);
          },
        )
    | found i il at member only look there ↦
        let inside : i ≢ no_slot = omega (arith, il, r.probed.len, r.probed.cap_ok.word) in
        let pick : (i == no_slot) ≡ false = ground arith in
        let go = rawset_open obj key v flags o i i e run look in
        elim (Bool-cases (bit_and (slot_at o.slots i).flags field_static == 0)) [
          | inl plain ↦
              let spec = write_old key v flags fields (field_at o.slots i) there plain in
              let (done, left, events) = overwrite_plain o i v flags key il at plain in
              (
                overwrite o i v flags,
                go ∙ rw pick,
                record {
                  result = done ∙ sym (ap (λ (t : Bool × List Field). t.0) spec);
                  models = rw (spec, left) (changed-Models r.models key v flags i il at only);
                  same = rw left (r.same.0, r.same.1);
                },
              )
          | inr static ↦
              let spec = write_static key v flags fields (field_at o.slots i) there static in
              let left = overwrite_static o i v flags static in
              (
                overwrite o i v flags,
                go ∙ rw pick,
                record {
                  result = rw (spec, left);
                  models = rw (spec, left) r.models;
                  same = rw left (r.same.0, r.same.1);
                },
              )
        ]
  ]

  -- A raw write with a legal key, on an object of at most 2^29 slots, returns.
  pub rawset-Writes :
      (out : Out) × (cdo_object_rawset obj key v flags ≡ some out)
      × Writes obj (write_field obj.readonly key v flags fields) out
  rawset-Writes = elim (Bool-cases obj.readonly) [
    | inl locked ↦ (
      record { obj = obj; result = false; events = [] },
      rawset_locked obj key v flags locked,
      let out : Out = record { obj = obj; result = false; events = [] } in
          let start : Writes obj (write_field true key v flags fields) out = record {
            result = rw (write_locked key v flags fields);
            models = rw (write_locked key v flags fields) m;
            same = (refl, refl);
          } in
          subst (λ (b : Bool). Writes obj (write_field b key v flags fields) out) (sym locked)
            start,
    )
    | inr unlocked ↦
        let (o, run, r) = obj_ensure_capacity-Roomy m small in
        let (out, go, w) = write_open o unlocked run r in
        (
          out,
          go,
          subst (λ (b : Bool). Writes obj (write_field b key v flags fields) out) (sym unlocked) w,
        )
  ]
