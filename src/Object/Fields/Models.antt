-- ===== src/Object/Fields/Models.antt =====
-- The abstract object: its fields in insertion order, each name once. `Models` says that an object
-- represents a list of fields; `locate` says what a lookup finds in it.
use can_do.Base.{
  ℕ, zero, suc, ◌+◌, ◌*◌, ◌≤◌, ◌<◌, ◌≡◌, ◌≢◌, ◌⊎◌, inl, inr, refl, sym, ap, ◌∙◌, ◌==◌,
  if◌then◌else◌, true, false, List, [], ◌∷◌, Option, none, some, arith, ℕ_discrete, length, set,
}
use mathlib.Core.Path.{subst}
use can_do.Object.Fields.{no_slot, tombstone, ObjSlot, CdoObject, obj_lookup}
use can_do.Object.Fields.Probe.{key_at, IsProbed, seek, obj_lookup_found, obj_lookup_absent}
use can_do.Object.Fields.Order.{In, Linked-live, Field, field_at, fields_of, IsOrder}

-- Slots that hold the tombstone.
unfoldable pub count_tombs : List ObjSlot → ℕ
count_tombs [] = 0
count_tombs (s ∷ slots) = (if s.key == tombstone then 1 else 0) + count_tombs slots

pub count_tombs-set :
    (slots : List ObjSlot) (i : ℕ) (s : ObjSlot)
    → i < length slots
    → count_tombs (set slots i s) + (if key_at slots i == tombstone then 1 else 0)
      ≡ count_tombs slots + (if s.key == tombstone then 1 else 0)
unfolding count_tombs
count_tombs-set [] i s h = absurd (omega arith)
count_tombs-set (x ∷ slots) zero s h = omega arith
count_tombs-set (x ∷ slots) (suc i) s h = omega (arith, count_tombs-set slots i s (omega arith))

pub record Models (obj : CdoObject) (fields : List Field) : Type 0 where
  pub order : List ℕ
  pub is_order : IsOrder obj.slots obj.fifo_head obj.fifo_tail order
  pub reads : fields_of obj.slots order ≡ fields
  pub count : obj.field_count ≡ length order
  pub tombs : obj.tombstone_count ≡ count_tombs obj.slots
  pub shape : ((obj.slot_cap ≡ 0) × (obj.slots ≡ [])) ⊎ IsProbed obj.slots obj.slot_cap
  pub load : (obj.field_count + obj.tombstone_count) * 4 ≤ obj.slot_cap * 3

-- The field with a name, if any.
unfoldable pub lookup_field : ℕ → List Field → Option Field
lookup_field key [] = none
lookup_field key (f ∷ fs) = if f.name == key then some f else lookup_field key fs

lookup_field_found :
    (slots : List ObjSlot) (key i : ℕ) (L : List ℕ)
    → In i L
    → key_at slots i ≡ key
    → ((j : ℕ) → In j L → key_at slots j ≡ key → j ≡ i)
    → lookup_field key (fields_of slots L) ≡ some (field_at slots i)
unfolding lookup_field
lookup_field_found slots key i [] m e only = elim m [ ]
lookup_field_found slots key i (j ∷ L) m e only = elim (ℕ_discrete (key_at slots j) key) [
  | yes q ↦
      let t : (key_at slots j == key) ≡ true = ground arith in
      let same = only j (inl refl) q in rw t (ap (λ (n : ℕ). some (field_at slots n)) same)
  | no ne ↦
      let t : (key_at slots j == key) ≡ false = ground arith in
      rw t (
        lookup_field_found slots key i L
          (elim m [ inl q ↦ absurd (ne (ap (key_at slots) (sym q) ∙ e)) | inr x ↦ x ]) e
          (λ n x. only n (inr x)))
]

lookup_field_missing :
    (slots : List ObjSlot) (key : ℕ) (L : List ℕ)
    → ((j : ℕ) → In j L → key_at slots j ≢ key)
    → lookup_field key (fields_of slots L) ≡ none
unfolding lookup_field
lookup_field_missing slots key [] absent = refl
lookup_field_missing slots key (j ∷ L) absent =
    let ne = absent j (inl refl) in
    let t : (key_at slots j == key) ≡ false = ground arith in
    rw t (lookup_field_missing slots key L (λ n x. absent n (inr x)))

-- What the lookup of a key comes to.
pub data Located (obj : CdoObject) (key : ℕ) (fields : List Field) (order : List ℕ) : Type 0 where
  found :
      (i : ℕ)
      → i < length obj.slots
      → key_at obj.slots i ≡ key
      → In i order
      → ((j : ℕ) → In j order → key_at obj.slots j ≡ key → j ≡ i)
      → obj_lookup obj key ≡ some (i, i)
      → lookup_field key fields ≡ some (field_at obj.slots i)
      → Located obj key fields order
  missing :
      (p : ℕ)
      → ((j : ℕ) → j < length obj.slots → key_at obj.slots j ≢ key)
      → obj_lookup obj key ≡ some (no_slot, p)
      → lookup_field key fields ≡ none
      → Located obj key fields order

module _ {obj : CdoObject} {fields : List Field} (m : Models obj fields) (key : ℕ)
    (live : 1 < key) where
  absent_in_order :
      ((j : ℕ) → j < length obj.slots → key_at obj.slots j ≢ key) → lookup_field key fields ≡ none
  absent_in_order absent =
      subst (λ (t : List Field). lookup_field key t ≡ none) m.reads
        (lookup_field_missing obj.slots key m.order
          (λ j x. absent j (Linked-live obj.slots no_slot j m.order m.is_order.linked x).0))

  pub locate : Located obj key fields m.order
  unfolding obj_lookup
  locate = elim m.shape [
    | inl (none_yet, empty) ↦
        let absent : (j : ℕ) → j < length obj.slots → key_at obj.slots j ≢ key =
          λ j l. absurd (omega (arith, l, ap length empty)) in
        missing no_slot absent (ground arith) (absent_in_order absent)
    | inr probed ↦ elim (seek obj.slots key) [
      | inl at ↦
          let il : at.0 < obj.slot_cap = omega (arith, at.1, probed.len) in
          let alive : 1 < key_at obj.slots at.0 = omega (arith, at.2) in
          let member = m.is_order.covers at.0 at.1 alive in
          let only : (j : ℕ) → In j m.order → key_at obj.slots j ≡ key → j ≡ at.0 = λ j x e.
            let k = Linked-live obj.slots no_slot j m.order m.is_order.linked x in
            probed.unique j at.0 (omega (arith, k, probed.len)) il k.1 (e ∙ sym at.2) in
          found at.0 at.1 at.2 member only (obj_lookup_found obj probed key at.0 il at.2 live) (
            subst (λ (t : List Field). lookup_field key t ≡ some (field_at obj.slots at.0)) m.reads
              (lookup_field_found obj.slots key at.0 m.order member at.2 only))
      | inr absent ↦
          let r = obj_lookup_absent obj probed key (λ j l. absent j (omega (arith, probed.len))) in
          missing r.0 absent r.1 (absent_in_order absent)
    ]
  ]
