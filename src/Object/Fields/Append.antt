-- ===== src/Object/Fields/Append.antt =====
-- A field put into a free slot and linked behind the last: what cdo_object_rawset does with a new key,
-- and what obj_rehash does with every key.
use can_do.Base.{
  ℕ, ◌≤◌, ◌<◌, ◌≡◌, ◌≢◌, inl, inr, refl, sym, ◌∙◌, ◌==◌, if◌then◌else◌, true, false, not, ◌&&◌,
  List, [], ◌∷◌, ◌++◌, arith, ℕ_discrete, length, set, length-set,
}
use mathlib.Core.Path.{subst, ap₂}
use can_do.Base.Cells.{get_or-set}
use can_do.Object.Value.{CdoValue}
use can_do.Object.Fields.{no_slot, ObjSlot, slot_at, fresh_slot, home, Ring, append_slot}
use can_do.Object.Fields.Probe.{key_at, IsProbed, dist}
use can_do.Object.Fields.Order.{
  In, Distinct, first, final, next_at, prev_at, Linked, Field, field_at, fields_of, IsOrder,
  In-append_left, In-append_last, Distinct-append_last, final-append_last, final-In, Linked-live,
  fields_of_congr, fields_of-append,
}

abbrev with_next : ℕ → ObjSlot → ObjSlot
with_next h s = record s { fifo_next = h }

-- Linking behind the last slot of a list.
link_end :
    (slots slots' : List ObjSlot) (tail h p : ℕ) (L : List ℕ)
    → Linked slots p L
    → length slots' ≡ length slots
    → ((j : ℕ)
        → In j L
        → slot_at slots' j ≡ (if tail == j then with_next h (slot_at slots j) else slot_at slots j))
    → Distinct L
    → tail ≡ final p L
    → (h < length slots')
      × (1 < key_at slots' h)
      × (prev_at slots' h ≡ tail)
      × (next_at slots' h ≡ no_slot)
    → Linked slots' p (L ++ (h ∷ []))
link_end slots slots' tail h p [] k len same d e new = (new.0, new.1, new.2 ∙ e, new.3, tt)
link_end slots slots' tail h p (i ∷ []) k len same d e new =
    let t : (tail == i) ≡ true = ground arith in
    let s : slot_at slots' i ≡ with_next h (slot_at slots i) = same i (inl refl) ∙ rw t in
    (
      omega (arith, len, k.0),
      rw (key_at, s) k.1,
      rw (prev_at, s) k.2,
      rw (next_at, s),
      (new.0, new.1, new.2 ∙ e, new.3, tt),
    )
link_end slots slots' tail h p (i ∷ j ∷ r) k len same d e new =
    let other : tail ≢ i =
      λ q. d.0 (subst (λ (t : ℕ). In t (j ∷ r)) (sym e ∙ q) (final-In i j r)) in
    let t : (tail == i) ≡ false = ground arith in
    let s : slot_at slots' i ≡ slot_at slots i = same i (inl refl) ∙ rw t in
    (
      omega (arith, len, k.0),
      rw (key_at, s) k.1,
      rw (prev_at, s) k.2,
      rw (next_at, s) k.3,
      link_end slots slots' tail h i (j ∷ r) k.4 len (λ m l. same m (inr l)) d.1 e new,
    )

tail_In :
    (head tail : ℕ) (L : List ℕ)
    → head ≡ first L
    → tail ≡ final no_slot L
    → head ≢ no_slot
    → In tail L
tail_In head tail [] e f ne = absurd (ne e)
tail_In head tail (i ∷ r) e f ne = subst (λ (t : ℕ). In t (i ∷ r)) (sym f) (final-In no_slot i r)

first_some :
    (slots : List ObjSlot) (head j : ℕ) (L : List ℕ)
    → Linked slots no_slot L
    → length slots < no_slot
    → head ≡ first L
    → In j L
    → head ≢ no_slot
first_some slots head j [] k small e m = elim m [ ]
first_some slots head j (i ∷ r) k small e m = omega (arith, k.0)

first-append_last :
    (head h : ℕ) (L : List ℕ)
    → head ≡ first L
    → ((j : ℕ) → In j L → head ≢ no_slot)
    → (if head == no_slot then h else head) ≡ first (L ++ (h ∷ []))
first-append_last head h [] e some_head = ground arith
first-append_last head h (i ∷ r) e some_head = ground (arith, some_head i (inl refl))

same_index : (h : ℕ) → (h == h) ≡ true
same_index h = ground arith

module _ (r : Ring) (L : List ℕ) (cap h key : ℕ) (value : CdoValue) (flags : ℕ)
    (order : IsOrder r.slots r.head r.tail L) (probed : IsProbed r.slots cap) (hl : h < cap)
    (dead : key_at r.slots h ≤ 1) (live : 1 < key)
    (absent : (j : ℕ) → j < cap → key_at r.slots j ≢ key)
    (clear : (j : ℕ)
      → j < cap
      → dist (home key cap) j cap < dist (home key cap) h cap
      → key_at r.slots j ≢ 0) where
  abbrev entry : ObjSlot
  entry = record {
    key = key;
    value = value;
    flags = flags;
    fifo_prev = r.tail;
    fifo_next = no_slot;
  }

  abbrev after : Ring
  after = append_slot r h key value flags

  outside : ¬ In h L
  outside m = let k = Linked-live r.slots no_slot h L order.linked m in omega arith

  pub tail_place : r.head ≢ no_slot → (r.tail < cap) × (r.tail ≢ h)
  tail_place ne =
      let m = tail_In r.head r.tail L order.starts order.ends ne in
      let k = Linked-live r.slots no_slot r.tail L order.linked m in
      (omega (arith, k, probed.len), λ e. outside (subst (λ (t : ℕ). In t L) e m))

  slot_at-after :
      (j : ℕ)
      → slot_at after.slots j ≡ (
          if h == j
          then entry
          else if (r.tail == j) && not (r.head == no_slot)
          then with_next h (slot_at r.slots j)
          else slot_at r.slots j)
  unfolding append_slot
  slot_at-after j =
      let one = set r.slots h entry in
      ground (
        arith,
        probed.len,
        tail_place,
        length-set r.slots h entry,
        get_or-set r.slots h j entry fresh_slot,
        get_or-set r.slots h r.tail entry fresh_slot,
        get_or-set one r.tail j (with_next h (slot_at one r.tail)) fresh_slot,
      )

  length-after : length after.slots ≡ length r.slots
  unfolding append_slot
  length-after =
      let one = set r.slots h entry in
      ground (
        arith,
        length-set r.slots h entry,
        length-set one r.tail (with_next h (slot_at one r.tail)),
      )

  at_h : slot_at after.slots h ≡ entry
  at_h = slot_at-after h ∙ rw (same_index h)

  pub key_at-after : (j : ℕ) → key_at after.slots j ≡ (if h == j then key else key_at r.slots j)
  key_at-after j = ground (arith, slot_at-after j)

  field_at-after : (j : ℕ) → j ≢ h → field_at after.slots j ≡ field_at r.slots j
  field_at-after j ne = ground (arith, slot_at-after j)

  head_some : (j : ℕ) → In j L → r.head ≢ no_slot
  head_some j m =
      first_some r.slots r.head j L order.linked (omega (arith, probed.len, probed.cap_ok.word))
        order.starts m

  not_h : (j : ℕ) → In j L → j ≢ h
  not_h j m e = outside (subst (λ (t : ℕ). In t L) e m)

  Linked-after : Linked after.slots no_slot (L ++ (h ∷ []))
  Linked-after =
      link_end r.slots after.slots r.tail h no_slot L order.linked length-after
        (λ j m. ground (arith, slot_at-after j, head_some j m, not_h j m)) order.distinct order.ends
        (
          omega (arith, length-after, probed.len),
          rw (key_at, at_h) live,
          rw (prev_at, at_h),
          rw (next_at, at_h),
        )

  pub append-IsProbed : IsProbed after.slots cap
  append-IsProbed = record {
    cap_ok = probed.cap_ok;
    len = length-after ∙ probed.len;
    unique = λ i j il jl alive same. ground (
      arith,
      live,
      key_at-after i,
      key_at-after j,
      probed.unique i j il jl,
      absent i il,
      absent j jl,
    );
    clear = λ i j il jl alive d.
        ground (arith, live, key_at-after i, key_at-after j, clear j jl, probed.clear i j il jl);
  }

  pub append-IsOrder : IsOrder after.slots after.head after.tail (L ++ (h ∷ []))
  append-IsOrder = record {
    linked = Linked-after;
    distinct = Distinct-append_last L h order.distinct outside;
    starts = unfold append_slot in first-append_last r.head h L order.starts head_some;
    ends = unfold append_slot in sym (final-append_last no_slot L h);
    covers = λ i il alive. elim (ℕ_discrete i h) [
      | yes e ↦ subst (λ (t : ℕ). In t (L ++ (h ∷ []))) (sym e) (In-append_last h L)
      | no ne ↦
          In-append_left i L (h ∷ []) (
            order.covers i (omega (arith, il, length-after))
              (ground (arith, key_at-after i, alive)))
    ];
  }

  -- The field comes last.
  pub append-fields :
      fields_of after.slots (L ++ (h ∷ []))
      ≡ fields_of r.slots L ++ (record { name = key; value = value; flags = flags } ∷ [])
  append-fields =
      fields_of-append after.slots L h
      ∙ ap₂ (λ (a : List Field) (b : Field). a ++ (b ∷ []))
          (fields_of_congr r.slots after.slots L (λ j m. field_at-after j (not_h j m)))
          (rw (field_at, at_h))
