-- ===== src/Object/Fields/Unlink.antt =====
-- One index taken out of the insertion order: what the links are to say afterwards.
use can_do.Base.{
  ℕ, ◌<◌, ◌≡◌, ◌≢◌, ◌⊎◌, inl, inr, sym, ap, ◌∙◌, ◌==◌, if◌then◌else◌, true, false, List, [], ◌∷◌,
  arith, ℕ_discrete, length,
}
use mathlib.Core.Path.{subst}
use can_do.Object.Fields.{no_slot, ObjSlot}
use can_do.Object.Fields.Probe.{key_at}
use can_do.Object.Fields.Order.{
  In, Distinct, first, final, next_at, prev_at, Linked, Linked-live, Linked-congr, without,
}

pub without_here : (i : ℕ) (r : List ℕ) → without i (i ∷ r) ≡ r
unfolding without
without_here i r = let t : (i == i) ≡ true = ground arith in rw t

pub without_later : (i j : ℕ) (r : List ℕ) → i ≢ j → without i (j ∷ r) ≡ j ∷ without i r
unfolding without
without_later i j r ne = let t : (i == j) ≡ false = ground arith in rw t

pub In-of-without : (i j : ℕ) (L : List ℕ) → In j (without i L) → In j L
unfolding without
In-of-without i j [] h = elim h [ ]
In-of-without i j (k ∷ r) h = elim (ℕ_discrete i k) [
  | yes e ↦
      inr
        (subst (λ (t : List ℕ). In j t) (ap (λ (n : ℕ). without n (k ∷ r)) e ∙ without_here k r) h)
  | no ne ↦ elim (subst (λ (t : List ℕ). In j t) (without_later i k r ne) h) [
    | inl q ↦ inl q
    | inr m ↦ inr (In-of-without i j r m)
  ]
]

-- The two clauses by which the proofs below go.
module _ (i : ℕ) where
  pub Distinct-without : (L : List ℕ) → Distinct L → Distinct (without i L)
  unfolding without
  Distinct-without [] d = tt
  Distinct-without (j ∷ r) d = elim (ℕ_discrete i j) [
    | yes e ↦ subst Distinct (sym (ap (λ (n : ℕ). without n (j ∷ r)) e ∙ without_here j r)) d.1
    | no ne ↦
        subst Distinct (sym (without_later i j r ne))
          (λ h. d.0 (In-of-without i j r h), Distinct-without r d.1)
  ]

  pub not-In-without : (L : List ℕ) → Distinct L → ¬ In i (without i L)
  unfolding without
  not-In-without [] d h = h
  not-In-without (j ∷ r) d h = elim (ℕ_discrete i j) [
    | yes e ↦ d.0 (
        subst (λ (t : ℕ). In t r) e
          (subst (λ (t : List ℕ). In i t) (ap (λ (n : ℕ). without n (j ∷ r)) e ∙ without_here j r)
            h))
    | no ne ↦ elim (subst (λ (t : List ℕ). In i t) (without_later i j r ne) h) [
      | inl q ↦ ne q
      | inr m ↦ not-In-without r d.1 m
    ]
  ]

  -- The neighbours of a linked slot are linked too, or are the ends.
  pub neighbours :
      (slots : List ObjSlot) (p : ℕ) (L : List ℕ)
      → Linked slots p L
      → In i L
      → ((prev_at slots i ≡ p) ⊎ In (prev_at slots i) L)
        × ((next_at slots i ≡ no_slot) ⊎ In (next_at slots i) L)
  neighbours slots p [] k m = elim m [ ]
  neighbours slots p (j ∷ []) k (inl e) = (inl (rw e k.2), inl (rw e k.3))
  neighbours slots p (j ∷ y ∷ r) k (inl e) = (inl (rw e k.2), inr (inr (inl (rw e k.3))))
  neighbours slots p (j ∷ r) k (inr m) =
      let (a, b) = neighbours slots j r k.4 m in
      (
        inr (elim a [ inl q ↦ inl q | inr n ↦ inr n ]),
        elim b [ inl q ↦ inl q | inr n ↦ inr (inr n) ],
      )

  pub first-without :
      (slots : List ObjSlot) (p : ℕ) (L : List ℕ)
      → Linked slots p L
      → Distinct L
      → In i L
      → ¬ In p L
      → first (without i L) ≡ (if prev_at slots i == p then next_at slots i else first L)
  first-without slots p [] k d m out = elim m [ ]
  first-without slots p (j ∷ r) k d (inl e) out =
      let a : prev_at slots i ≡ p = rw e k.2 in
      let b : next_at slots i ≡ first r = rw e k.3 in
      let w : without i (j ∷ r) ≡ r = ap (λ (n : ℕ). without n (j ∷ r)) e ∙ without_here j r in
      rw w (ground (arith, a, b))
  first-without slots p (j ∷ r) k d (inr m) out =
      let ne : i ≢ j = λ e. d.0 (subst (λ (t : ℕ). In t r) e m) in
      let away : prev_at slots i ≢ p = elim ((neighbours slots j r k.4 m).0) [
        | inl q ↦ λ e. out (inl (sym e ∙ q))
        | inr n ↦ λ e. out (inr (subst (λ (t : ℕ). In t r) e n))
      ] in
      rw (without_later i j r ne) (ground (arith, away))

  pub final-without :
      (slots : List ObjSlot) (p : ℕ) (L : List ℕ)
      → Linked slots p L
      → length slots < no_slot
      → Distinct L
      → In i L
      → final p (without i L) ≡ (if next_at slots i == no_slot then prev_at slots i else final p L)
  final-without slots p [] k small d m = elim m [ ]
  final-without slots p (j ∷ []) k small d (inl e) =
      let a : prev_at slots i ≡ p = rw e k.2 in
      let b : next_at slots i ≡ no_slot = rw e k.3 in
      let w : without i (j ∷ []) ≡ [] = ap (λ (n : ℕ). without n (j ∷ [])) e ∙ without_here j [] in
      rw w (ground (arith, a, b))
  final-without slots p (j ∷ y ∷ r) k small d (inl e) =
      let b : next_at slots i ≡ y = rw e k.3 in
      let l : y < length slots = k.4.0 in
      let w : without i (j ∷ y ∷ r) ≡ y ∷ r =
        ap (λ (n : ℕ). without n (j ∷ y ∷ r)) e ∙ without_here j (y ∷ r) in
      rw w (ground (arith, b, l))
  final-without slots p (j ∷ r) k small d (inr m) =
      let ne : i ≢ j = λ e. d.0 (subst (λ (t : ℕ). In t r) e m) in
      rw (without_later i j r ne) (final-without slots j r k.4 small d.1 m)

  -- Slots in which the neighbours of `i` have been linked to one another.
  pub record Bypassed (slots slots' : List ObjSlot) : Type 0 where
    pub len : length slots' ≡ length slots
    pub small : length slots < no_slot
    pub keys : (j : ℕ) → j < length slots → j ≢ i → key_at slots' j ≡ key_at slots j
    pub nexts :
        (j : ℕ)
        → j < length slots
        → j ≢ i
        → next_at slots' j ≡ (if prev_at slots i == j then next_at slots i else next_at slots j)
    pub prevs :
        (j : ℕ)
        → j < length slots
        → j ≢ i
        → prev_at slots' j ≡ (if next_at slots i == j then prev_at slots i else prev_at slots j)

  module _ {slots slots' : List ObjSlot} (b : Bypassed slots slots') where
    pub Linked-without :
        (p : ℕ) (L : List ℕ)
        → Linked slots p L
        → Distinct L
        → In i L
        → ¬ In p L
        → Linked slots' p (without i L)
    Linked-without p [] k d m out = elim m [ ]
    Linked-without p (j ∷ []) k d (inl e) out =
        let w : without i (j ∷ []) ≡ [] =
          ap (λ (n : ℕ). without n (j ∷ [])) e ∙ without_here j [] in
        rw w tt
    Linked-without p (j ∷ y ∷ r) k d (inl e) out =
        let w : without i (j ∷ y ∷ r) ≡ y ∷ r =
          ap (λ (n : ℕ). without n (j ∷ y ∷ r)) e ∙ without_here j (y ∷ r) in
        let before : prev_at slots i ≡ p = rw e k.2 in
        let after : next_at slots i ≡ y = rw e k.3 in
        let yk = k.4 in
        let y_ne : y ≢ i = λ q. d.0 (inl (sym e ∙ sym q)) in
        let p_ne : p ≢ y = λ q. out (inr (inl q)) in
        rw w (
          omega (arith, b.len, yk.0),
          omega (arith, b.keys y yk.0 y_ne, yk.1),
          ground (arith, b.prevs y yk.0 y_ne, before, after),
          ground (arith, b.nexts y yk.0 y_ne, before, p_ne, yk.3),
          Linked-congr slots slots' y r b.len
              (λ z m.
                let zl = (Linked-live slots y z r yk.4 m).0 in
                let z_ne : z ≢ i = λ q. d.0 (inr (subst (λ (t : ℕ). In t r) (q ∙ e) m)) in
                let z_y : z ≢ y = λ q. d.1.0 (subst (λ (t : ℕ). In t r) q m) in
                let z_p : z ≢ p = λ q. out (inr (inr (subst (λ (t : ℕ). In t r) q m))) in
                (
                  b.keys z zl z_ne,
                  ground (arith, b.prevs z zl z_ne, after, z_y),
                  ground (arith, b.nexts z zl z_ne, before, z_p),
                ))
              yk.4,
        )
    Linked-without p (j ∷ r) k d (inr m) out =
        let ne : i ≢ j = λ e. d.0 (subst (λ (t : ℕ). In t r) e m) in
        let j_ne : j ≢ i = λ e. ne (sym e) in
        let away : next_at slots i ≢ j = elim ((neighbours slots j r k.4 m).1) [
          | inl q ↦ let l = k.0 in let s = b.small in omega arith
          | inr n ↦ λ e. d.0 (subst (λ (t : ℕ). In t r) e n)
        ] in
        rw (without_later i j r ne) (
          omega (arith, b.len, k.0),
          omega (arith, b.keys j k.0 j_ne, k.1),
          ground (arith, b.prevs j k.0 j_ne, away, k.2),
          ground (arith, b.nexts j k.0 j_ne, first-without slots j r k.4 d.1 m d.0, k.3),
          Linked-without j r k.4 d.1 m d.0,
        )
