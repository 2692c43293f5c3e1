-- ===== src/Object/Fields/Order.antt =====
-- The insertion order of an object's fields: a list of slot indices that the slots' own links spell.
use can_do.Base.{
  ℕ, zero, suc, ◌+◌, ◌≤◌, ◌<◌, ◌≡◌, ◌≢◌, ◌⊎◌, inl, inr, refl, sym, ap, ◌∙◌, ◌==◌, if◌then◌else◌,
  true, false, List, [], ◌∷◌, ◌++◌, map, arith, ℕ_discrete, length,
}
use mathlib.Core.Path.{ap₂}
use can_do.Object.Value.{CdoValue}
use can_do.Object.Fields.{no_slot, ObjSlot, slot_at}
use can_do.Object.Fields.Probe.{key_at}

abbrev pub In : ℕ → List ℕ → Type 0
In i [] = ⊥
In i (j ∷ r) = (i ≡ j) ⊎ In i r

abbrev pub Distinct : List ℕ → Type 0
Distinct [] = Unit
Distinct (i ∷ r) = ¬ In i r × Distinct r

abbrev pub first : List ℕ → ℕ
first [] = no_slot
first (i ∷ r) = i

abbrev pub final : ℕ → List ℕ → ℕ
final p [] = p
final p (i ∷ r) = final i r

abbrev pub next_at : List ObjSlot → ℕ → ℕ
next_at slots i = (slot_at slots i).fifo_next

abbrev pub prev_at : List ObjSlot → ℕ → ℕ
prev_at slots i = (slot_at slots i).fifo_prev

-- Slots `L`, all live, are linked both ways behind `p`, and the last has no successor.
abbrev pub Linked : List ObjSlot → ℕ → List ℕ → Type 0
Linked slots p [] = Unit
Linked slots p (i ∷ r) =
    (i < length slots)
    × (1 < key_at slots i)
    × (prev_at slots i ≡ p)
    × (next_at slots i ≡ first r)
    × Linked slots i r

-- What a slot says of its field.
pub record Field : Type 0 where
  pub name : ℕ
  pub value : CdoValue
  pub flags : ℕ

abbrev pub field_at : List ObjSlot → ℕ → Field
field_at slots i =
    let s = slot_at slots i in record { name = s.key; value = s.value; flags = s.flags }

abbrev pub fields_of : List ObjSlot → List ℕ → List Field
fields_of slots L = map (field_at slots) L

-- The list is the insertion order of the table, from `head` to `tail`, and leaves out no live slot.
pub record IsOrder (slots : List ObjSlot) (head tail : ℕ) (L : List ℕ) : Type 0 where
  pub linked : Linked slots no_slot L
  pub distinct : Distinct L
  pub starts : head ≡ first L
  pub ends : tail ≡ final no_slot L
  pub covers : (i : ℕ) → i < length slots → 1 < key_at slots i → In i L

In-append : (i : ℕ) (L M : List ℕ) → In i (L ++ M) → In i L ⊎ In i M
In-append i [] M h = inr h
In-append i (j ∷ L) M (inl e) = inl (inl e)
In-append i (j ∷ L) M (inr h) = elim (In-append i L M h) [ inl a ↦ inl (inr a) | inr b ↦ inr b ]

pub In-append_left : (i : ℕ) (L M : List ℕ) → In i L → In i (L ++ M)
In-append_left i [] M h = elim h [ ]
In-append_left i (j ∷ L) M (inl e) = inl e
In-append_left i (j ∷ L) M (inr h) = inr (In-append_left i L M h)

pub In-append_last : (i : ℕ) (L : List ℕ) → In i (L ++ (i ∷ []))
In-append_last i [] = inl refl
In-append_last i (j ∷ L) = inr (In-append_last i L)

pub Distinct-append_last : (L : List ℕ) (h : ℕ) → Distinct L → ¬ In h L → Distinct (L ++ (h ∷ []))
Distinct-append_last [] h d out = (λ x. x, tt)
Distinct-append_last (j ∷ L) h d out = (
  λ x. elim (In-append j L (h ∷ []) x) [
    | inl a ↦ d.0 a
    | inr b ↦ elim b [ inl e ↦ out (inl (sym e)) | inr z ↦ z ]
  ],
  Distinct-append_last L h d.1 (λ x. out (inr x)),
)

pub final-append_last : (p : ℕ) (L : List ℕ) (h : ℕ) → final p (L ++ (h ∷ [])) ≡ h
final-append_last p [] h = refl
final-append_last p (j ∷ L) h = final-append_last j L h

pub final-In : (p : ℕ) (i : ℕ) (r : List ℕ) → In (final p (i ∷ r)) (i ∷ r)
final-In p i [] = inl refl
final-In p i (j ∷ r) = inr (final-In i j r)

pub Linked-live :
    (slots : List ObjSlot) (p i : ℕ) (L : List ℕ)
    → Linked slots p L
    → In i L
    → (i < length slots) × (1 < key_at slots i)
Linked-live slots p i [] k h = elim h [ ]
Linked-live slots p i (j ∷ L) k (inl e) = rw e (k.0, k.1)
Linked-live slots p i (j ∷ L) k (inr h) = Linked-live slots j i L k.4 h

-- Slots that agree on the keys and links of `L` spell it alike.
pub Linked-congr :
    (slots slots' : List ObjSlot) (p : ℕ) (L : List ℕ)
    → length slots' ≡ length slots
    → ((i : ℕ)
        → In i L
        → (key_at slots' i ≡ key_at slots i)
          × (prev_at slots' i ≡ prev_at slots i)
          × (next_at slots' i ≡ next_at slots i))
    → Linked slots p L
    → Linked slots' p L
Linked-congr slots slots' p [] len same k = tt
Linked-congr slots slots' p (i ∷ r) len same k =
    let (a, b, c) = same i (inl refl) in
    (
      omega (arith, len, k.0),
      omega (arith, a, k.1),
      b ∙ k.2,
      c ∙ k.3,
      Linked-congr slots slots' i r len (λ j h. same j (inr h)) k.4,
    )

-- Fields depend on the slots only through name, value and flags.
pub fields_of_congr :
    (slots slots' : List ObjSlot) (L : List ℕ)
    → ((i : ℕ) → In i L → field_at slots' i ≡ field_at slots i)
    → fields_of slots' L ≡ fields_of slots L
fields_of_congr slots slots' [] same = refl
fields_of_congr slots slots' (i ∷ r) same =
    ap₂ ◌∷◌ (same i (inl refl)) (fields_of_congr slots slots' r (λ j h. same j (inr h)))

pub fields_of-append :
    (slots : List ObjSlot) (L : List ℕ) (h : ℕ)
    → fields_of slots (L ++ (h ∷ [])) ≡ fields_of slots L ++ (field_at slots h ∷ [])
fields_of-append slots [] h = refl
fields_of-append slots (i ∷ r) h =
    ap (λ (t : List Field). field_at slots i ∷ t) (fields_of-append slots r h)

-- Distinct indices below `n` number at most `n`: a list that holds them all has `n` entries.
unfoldable pub without : ℕ → List ℕ → List ℕ
without i [] = []
without i (j ∷ r) = if i == j then r else j ∷ without i r

pub length-without : (i : ℕ) (L : List ℕ) → In i L → length (without i L) + 1 ≡ length L
unfolding without
length-without i [] h = elim h [ ]
length-without i (j ∷ r) (inl e) = ground arith
length-without i (j ∷ r) (inr h) = ground (arith, length-without i r h)

pub In-without : (i j : ℕ) (L : List ℕ) → In j L → j ≢ i → In j (without i L)
unfolding without
In-without i j [] h ne = elim h [ ]
In-without i j (k ∷ r) h ne = elim (ℕ_discrete i k) [
  | yes e ↦
      let t : (i == k) ≡ true = ground arith in
      rw t (elim h [ inl q ↦ absurd (ne (q ∙ sym e)) | inr m ↦ m ])
  | no n ↦
      let t : (i == k) ≡ false = ground arith in
      rw t (elim h [ inl q ↦ inl q | inr m ↦ inr (In-without i j r m ne) ])
]

-- A list that holds every index below `n` is at least that long.
pub le_length_of_all : (n : ℕ) (L : List ℕ) → ((j : ℕ) → j < n → In j L) → n ≤ length L
le_length_of_all zero L all = omega arith
le_length_of_all (suc n) L all =
    let last = all n (omega arith) in
    let fewer =
      le_length_of_all n (without n L)
        (λ j l. In-without n j L (all j (omega arith)) (omega arith)) in
    omega (arith, fewer, length-without n L last)
