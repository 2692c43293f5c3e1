-- ===== src/Object/Fields/Rehash.antt =====
-- obj_rehash: every field goes into a new table, in insertion order, and tombstones are left behind.
use can_do.Base.{
  ℕ, zero, suc, ◌+◌, ◌≤◌, ◌<◌, ◌≡◌, ◌≢◌, inl, inr, refl, sym, ap, ◌∙◌, ◌==◌, if◌then◌else◌, false,
  List, [], ◌∷◌, ◌++◌, some, arith, ℕ_discrete, length, length-append,
}
use mathlib.Core.List.{append-nil, append_assoc}
use mathlib.Core.Path.{subst}
use can_do.Object.Value.{CdoValue}
use can_do.Object.Fields.{
  no_slot, ObjSlot, slot_at, home, next, first_empty, Ring, append_slot, rehash_from,
}
use can_do.Object.Fields.Probe.{
  key_at, IsCap, IsProbed, dist, dist_self, dist-lt, dist-injective, home-lt, next-lt, dist-next,
}
use can_do.Object.Fields.Order.{
  In, Distinct, first, Linked, Field, field_at, fields_of, IsOrder, le_length_of_all,
}
use can_do.Object.Fields.Append.{append-IsProbed, append-IsOrder, append-fields, key_at-after}

-- The first empty slot from a key's home on, with all slots on the way taken.
pub record Vacancy (slots : List ObjSlot) (cap start h : ℕ) : Type 0 where
  pub inside : h < cap
  pub empty : key_at slots h ≡ 0
  pub taken : (j : ℕ) → j < cap → dist start j cap < dist start h cap → key_at slots j ≢ 0

module _ (slots : List ObjSlot) {cap : ℕ} (c : IsCap cap) (start : ℕ) (s : start < cap)
    (room : ¬ ((j : ℕ) → j < cap → key_at slots j ≢ 0)) where
  first_empty_lem :
      (fuel h : ℕ)
      → h < cap
      → cap ≤ fuel + dist start h cap
      → ((j : ℕ) → j < cap → dist start j cap < dist start h cap → key_at slots j ≢ 0)
      → (e : ℕ) × (first_empty slots cap fuel h ≡ some e) × Vacancy slots cap start e
  unfolding first_empty
  first_empty_lem zero h l enough clear = absurd (omega (arith, dist-lt start h cap s l))
  first_empty_lem (suc fuel) h l enough clear = elim (ℕ_discrete (key_at slots h) 0) [
    | yes e ↦ (h, ground arith, record { inside = l; empty = e; taken = clear })
    | no ne ↦
        let clear' : (j : ℕ)
            → j < cap
            → dist start j cap < dist start h cap + 1
            → key_at slots j ≢ 0 =
          λ j jl d. ground (arith, clear j jl, dist-injective start j h cap s jl l) in
        elim (ℕ_discrete (dist start h cap + 1) cap) [
          | yes last ↦ absurd (room (λ j jl. clear' j jl (omega (arith, dist-lt start j cap s jl))))
          | no more ↦
              let t = dist-next start h c s l (omega (arith, dist-lt start h cap s l)) in
              let (e, run, v) =
                first_empty_lem fuel (next h cap) (next-lt start h c s l) (omega (arith, t))
                  (rw t.0 clear') in
              (e, ground (arith, run), v)
        ]
  ]

-- A table under construction: no tombstones, and an order of its own.
pub record Fresh (r : Ring) (cap : ℕ) (M : List ℕ) : Type 0 where
  pub order : IsOrder r.slots r.head r.tail M
  pub probed : IsProbed r.slots cap
  pub no_tombs : (j : ℕ) → j < cap → key_at r.slots j ≢ 1

Fresh-room :
    (r : Ring) (cap : ℕ) (M : List ℕ)
    → Fresh r cap M
    → length M < cap
    → ¬ ((j : ℕ) → j < cap → key_at r.slots j ≢ 0)
Fresh-room r cap M f small all =
    let every = le_length_of_all cap M (λ j jl.
      f.order.covers j (omega (arith, jl, f.probed.len))
        (let a = all j jl in let b = f.no_tombs j jl in omega arith)) in
    absurd (omega (arith, every))

-- One field moves into a table under construction.
module _ (r : Ring) (cap : ℕ) (M : List ℕ) (f : Fresh r cap M) (h key : ℕ) (value : CdoValue)
    (flags : ℕ) (v : Vacancy r.slots cap (home key cap) h) (live : 1 < key)
    (absent : (j : ℕ) → j < cap → key_at r.slots j ≢ key) where
  dead : key_at r.slots h ≤ 1
  dead = omega (arith, v.empty)

  moved-key :
      (j : ℕ)
      → key_at (append_slot r h key value flags).slots j
        ≡ (if h == j then key else key_at r.slots j)
  moved-key =
      key_at-after r M cap h key value flags f.order f.probed v.inside dead live absent v.taken

  moved-Fresh : Fresh (append_slot r h key value flags) cap (M ++ (h ∷ []))
  moved-Fresh = record {
    order =
        append-IsOrder r M cap h key value flags f.order f.probed v.inside dead live absent v.taken;
    probed =
        append-IsProbed r M cap h key value flags f.order f.probed v.inside dead live absent
          v.taken;
    no_tombs = λ j jl. ground (arith, moved-key j, f.no_tombs j jl, live);
  }

  moved-fields :
      fields_of (append_slot r h key value flags).slots (M ++ (h ∷ []))
      ≡ fields_of r.slots M ++ (record { name = key; value = value; flags = flags } ∷ [])
  moved-fields =
      append-fields r M cap h key value flags f.order f.probed v.inside dead live absent v.taken

  moved-absent :
      (other j : ℕ)
      → other ≢ key
      → key_at r.slots j ≢ other
      → key_at (append_slot r h key value flags).slots j ≢ other
  moved-absent other j ne new = ground (arith, moved-key j)

module _ (old : List ObjSlot) where
  rehash_from_step :
      (cap fuel i : ℕ) (r : Ring) (h : ℕ)
      → i < no_slot
      → first_empty r.slots cap cap (home (key_at old i) cap) ≡ some h
      → rehash_from old cap (suc fuel) i r
        ≡ rehash_from old cap fuel
            (slot_at old i).fifo_next
            (append_slot r h (key_at old i) (slot_at old i).value (slot_at old i).flags)
  unfolding rehash_from
  rehash_from_step cap fuel i r h l run =
      let t : (i == no_slot) ≡ false = ground arith in rw (t, run)

module _ (old : List ObjSlot) {cap : ℕ} (c : IsCap cap) where
  pub rehash_from_lem :
      (fuel p : ℕ) (rest : List ℕ) (r : Ring) (M : List ℕ)
      → Linked old p rest
      → length old < no_slot
      → Distinct rest
      → ((i j : ℕ) → In i rest → In j rest → key_at old i ≡ key_at old j → i ≡ j)
      → length rest ≤ fuel
      → length M + length rest < cap
      → Fresh r cap M
      → ((i j : ℕ) → In i rest → j < cap → key_at r.slots j ≢ key_at old i)
      → (r' : Ring) × (M' : List ℕ) × (rehash_from old cap fuel (first rest) r ≡ some r')
        × Fresh r' cap M'
        × (length M' ≡ length M + length rest)
        × (fields_of r'.slots M' ≡ fields_of r.slots M ++ fields_of old rest)
  unfolding rehash_from
  rehash_from_lem zero p [] r M k small d u enough fits f new =
      (r, M, refl, f, omega arith, sym (append-nil _))
  rehash_from_lem (suc fuel) p [] r M k small d u enough fits f new =
      (r, M, refl, f, omega arith, sym (append-nil _))
  rehash_from_lem zero p (i ∷ rest) r M k small d u enough fits f new = absurd (omega arith)
  rehash_from_lem (suc fuel) p (i ∷ rest) r M k small d u enough fits f new =
      let key = key_at old i in
      let start = home key cap in
      let sl = home-lt key c in
      let (h, run, v) =
        first_empty_lem r.slots c start sl (Fresh-room r cap M f (omega arith)) cap start sl
          (omega arith) (λ j jl q. absurd (omega (arith, dist_self start cap))) in
      let s = slot_at old i in
      let absent : (j : ℕ) → j < cap → key_at r.slots j ≢ key = λ j jl. new i j (inl refl) jl in
      let r' = append_slot r h key s.value s.flags in
      let f' = moved-Fresh r cap M f h key s.value s.flags v k.1 absent in
      let len = length-append M (h ∷ []) in
      let (last, M', go, g, total, fields) =
        rehash_from_lem fuel i rest r' (M ++ (h ∷ [])) k.4 small d.1
          (λ a b x y. u a b (inr x) (inr y)) (omega arith) (omega (arith, len)) f'
          (λ a j x jl.
            moved-absent r cap M f h key s.value s.flags v k.1 absent (key_at old a) j
              (λ q. d.0 (subst (λ (t : ℕ). In t rest) (u a i (inr x) (inl refl) q) x))
              (new a j (inr x) jl)) in
      (
        last,
        M',
        rehash_from_step old cap fuel i r h (omega (arith, k.0)) run
            ∙ (ap (λ (t : ℕ). rehash_from old cap fuel t r') k.3 ∙ go),
        g,
        omega (arith, total, len),
        fields
            ∙ (ap (λ (t : List Field). t ++ fields_of old rest)
                  (moved-fields r cap M f h key s.value s.flags v k.1 absent)
                ∙ append_assoc (fields_of r.slots M) (field_at old i ∷ []) (fields_of old rest)),
      )
