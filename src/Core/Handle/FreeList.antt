-- ===== src/Core/Handle/FreeList.antt =====
-- The free list of a handle table: the chain of its free slots, and the well-formed table.
use can_do.Base.{
  ℕ, zero, suc, ◌+◌, ◌%◌, ◌^◌, ◌≤◌, ◌<◌, ◌≡◌, ◌≢◌, ◌⊎◌, inl, inr, refl, sym, ap, ◌∙◌, ◌==◌,
  if◌then◌else◌, false, List, [], ◌∷◌, ◌++◌, arith, length, set, length-set,
}
use mathlib.Core.Path.{subst}
use can_do.Base.Cells.{get_or-set}
use can_do.Core.Handle.{
  invalid_handle, CandoHandleSlot, CandoHandleTable, no_handle_slot, handle_at, chain_slots,
}

abbrev pub In : ℕ → List ℕ → Type 0
In i [] = ⊥
In i (j ∷ r) = (i ≡ j) ⊎ In i r

-- The free slots `L`, each once, spelled by their pointers from `head` on.
unfoldable pub IsChain : List CandoHandleSlot → ℕ → List ℕ → Type 0
IsChain slots head [] = head ≡ invalid_handle
IsChain slots head (i ∷ r) =
    (head ≡ i)
    × (i < length slots)
    × ((handle_at slots i).live ≡ false)
    × ¬ In i r
    × IsChain slots ((handle_at slots i).ptr % 2 ^ 32) r

unfoldable pub count_live : List CandoHandleSlot → ℕ
count_live [] = 0
count_live (s ∷ slots) = (if s.live then 1 else 0) + count_live slots

-- A well-formed table: every slot is live or on the free list.
pub record IsTable (t : CandoHandleTable) : Type 0 where
  pub free : List ℕ
  pub chain : IsChain t.slots t.free_head free
  pub len : length t.slots ≡ t.capacity
  pub some_slots : 0 < t.capacity
  pub word : t.capacity < 2 ^ 32
  pub counted : t.count ≡ count_live t.slots
  pub all_free : length free + t.count ≡ t.capacity

pub count_live-set :
    (slots : List CandoHandleSlot) (i : ℕ) (s : CandoHandleSlot)
    → i < length slots
    → count_live (set slots i s) + (if (handle_at slots i).live then 1 else 0)
      ≡ count_live slots + (if s.live then 1 else 0)
unfolding count_live
count_live-set [] i s h = absurd (omega arith)
count_live-set (x ∷ slots) zero s h = omega arith
count_live-set (x ∷ slots) (suc i) s h = omega (arith, count_live-set slots i s (omega arith))

pub count_live-append :
    (xs ys : List CandoHandleSlot) → count_live (xs ++ ys) ≡ count_live xs + count_live ys
unfolding count_live
count_live-append [] ys = omega arith
count_live-append (x ∷ xs) ys = omega (arith, count_live-append xs ys)

-- A write to a slot that is not on the list leaves the list as it is.
pub IsChain-set :
    (slots : List CandoHandleSlot) (i head : ℕ) (s : CandoHandleSlot) (L : List ℕ)
    → i < length slots
    → ¬ In i L
    → IsChain slots head L
    → IsChain (set slots i s) head L
unfolding IsChain
IsChain-set slots i head s [] il out c = c
IsChain-set slots i head s (j ∷ r) il out (e, jl, dead, once, rest) =
    let ne : i ≢ j = λ q. out (inl q) in
    let same : handle_at (set slots i s) j ≡ handle_at slots j =
      let g = get_or-set slots i j s no_handle_slot il in ground (arith, g, ne) in
    (
      e,
      omega (arith, jl, length-set slots i s),
      ap (λ (x : CandoHandleSlot). x.live) same ∙ dead,
      once,
      subst (λ (n : ℕ). IsChain (set slots i s) (n % 2 ^ 32) r)
          (sym (ap (λ (x : CandoHandleSlot). x.ptr) same))
          (IsChain-set slots i ((handle_at slots j).ptr % 2 ^ 32) s r il (λ m. out (inr m)) rest),
    )

-- No slot on the free list is live.
pub In-free :
    (slots : List CandoHandleSlot) (head : ℕ) (L : List ℕ)
    → IsChain slots head L
    → (i : ℕ) → In i L
    → (i < length slots) × ((handle_at slots i).live ≡ false)
unfolding IsChain
In-free slots head [] c i m = elim m [ ]
In-free slots head (j ∷ r) (e, jl, dead, once, rest) i (inl q) =
    subst (λ (n : ℕ). (n < length slots) × ((handle_at slots n).live ≡ false)) (sym q) (jl, dead)
In-free slots head (j ∷ r) (e, jl, dead, once, rest) i (inr m) =
    In-free slots ((handle_at slots j).ptr % 2 ^ 32) r rest i m

-- `n` indices from `i` on.
abbrev pub range : ℕ → ℕ → List ℕ
range i zero = []
range i (suc n) = i ∷ range (i + 1) n

range_ge : (i n j : ℕ) → In j (range i n) → i ≤ j
range_ge i zero j m = elim m [ ]
range_ge i (suc n) j (inl q) = omega (arith, q)
range_ge i (suc n) j (inr m) = omega (arith, range_ge (i + 1) n j m)

pub length-range : (i n : ℕ) → length (range i n) ≡ n
length-range i zero = refl
length-range i (suc n) = ap suc (length-range (i + 1) n)

pub length-chain_slots : (i n last : ℕ) → length (chain_slots i n last) ≡ n
unfolding chain_slots
length-chain_slots i zero last = refl
length-chain_slots i (suc n) last = ap suc (length-chain_slots (i + 1) n last)

pub count_live-chain_slots : (i n last : ℕ) → count_live (chain_slots i n last) ≡ 0
unfolding chain_slots count_live
count_live-chain_slots i zero last = refl
count_live-chain_slots i (suc n) last = omega (arith, count_live-chain_slots (i + 1) n last)

-- A new slot, one of `n` from index `i` on.
abbrev pub new_slot : ℕ → ℕ → ℕ → ℕ → CandoHandleSlot
new_slot i n last k = record {
  ptr = if k + 1 == n then last else i + k + 1;
  live = false;
  marked = false;
}

pub handle_at-chain_slots :
    (i n last k : ℕ) → k < n → handle_at (chain_slots i n last) k ≡ new_slot i n last k
unfolding chain_slots
handle_at-chain_slots i zero last k h = absurd (omega arith)
handle_at-chain_slots i (suc n) last zero h = ground arith
handle_at-chain_slots i (suc n) last (suc k) h =
    let rest = handle_at-chain_slots (i + 1) n last k (omega arith) in ground (arith, rest)

abbrev free_slot : ℕ → CandoHandleSlot
free_slot p = record { ptr = p; live = false; marked = false }

new_slot-suc :
    (i n k : ℕ)
    → new_slot i (suc (suc n)) invalid_handle (suc k) ≡ new_slot (i + 1) (suc n) invalid_handle k
new_slot-suc i n k = ap free_slot (ground arith)

-- Slots that stand as `chain_slots` leaves them are a free list.
pub IsChain-range :
    (slots : List CandoHandleSlot) (i n : ℕ)
    → 0 < n
    → i + n ≤ length slots
    → i + n < 2 ^ 32
    → ((k : ℕ) → k < n → handle_at slots (i + k) ≡ new_slot i n invalid_handle k)
    → IsChain slots i (range i n)
unfolding IsChain
IsChain-range slots i zero pos fits word cell = absurd (omega arith)
IsChain-range slots i (suc zero) pos fits word cell =
    let here : handle_at slots i ≡ new_slot i 1 invalid_handle 0 =
      ap (handle_at slots) (omega arith) ∙ cell 0 (omega arith) in
    (
      refl,
      omega arith,
      ap (λ (s : CandoHandleSlot). s.live) here,
      λ m. m,
      ap (λ (s : CandoHandleSlot). s.ptr % 2 ^ 32) here,
    )
IsChain-range slots i (suc (suc n)) pos fits word cell =
    let here : handle_at slots i ≡ new_slot i (suc (suc n)) invalid_handle 0 =
      ap (handle_at slots) (omega arith) ∙ cell 0 (omega arith) in
    let after : (handle_at slots i).ptr % 2 ^ 32 ≡ i + 1 =
      ap (λ (s : CandoHandleSlot). s.ptr % 2 ^ 32) here ∙ ground arith in
    let rest = IsChain-range slots (i + 1) (suc n) (omega arith) (omega arith) (omega arith) (λ k l.
      ap (handle_at slots) (omega arith) ∙ cell (suc k) (omega arith) ∙ new_slot-suc i n k) in
    (
      refl,
      omega arith,
      ap (λ (s : CandoHandleSlot). s.live) here,
      λ m. absurd (omega (arith, range_ge (i + 1) (suc n) i m)),
      subst (λ (h : ℕ). IsChain slots h (range (i + 1) (suc n))) (sym after) rest,
    )
