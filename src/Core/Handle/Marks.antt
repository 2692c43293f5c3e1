-- ===== src/Core/Handle/Marks.antt =====
-- The mark bits of a handle table, and the store through a handle that a relocation does.
use can_do.Base.{
  ℕ, zero, suc, ◌<◌, ◌≡◌, refl, ◌==◌, if◌then◌else◌, true, false, List, [], ◌∷◌, map, none, some,
  arith, length, set,
}
use can_do.Base.Cells.{get_or-set}
use can_do.Core.Handle.{
  CandoHandleSlot, CandoHandleTable, no_handle_slot, handle_at, unmark, cando_handle_get,
  cando_handle_set, cando_handle_mark, cando_handle_clear_marks, cando_handle_is_marked, is_live,
}

handle_at-map :
    (slots : List CandoHandleSlot) (i : ℕ)
    → handle_at (map unmark slots) i ≡ unmark (handle_at slots i)
handle_at-map [] i = refl
handle_at-map (s ∷ slots) zero = refl
handle_at-map (s ∷ slots) (suc i) = handle_at-map slots i

-- Clearing the marks leaves every live handle unmarked and naming what it did.
pub clear_marks-reads :
    (t : CandoHandleTable) (j : ℕ)
    → (cando_handle_get (cando_handle_clear_marks t) j ≡ cando_handle_get t j)
      × (cando_handle_is_marked (cando_handle_clear_marks t) j
          ≡ (if is_live t j then some false else none))
unfolding cando_handle_clear_marks cando_handle_is_marked cando_handle_get is_live
clear_marks-reads t j = rw (handle_at-map t.slots j) (refl, refl)

module _ (t : CandoHandleTable) (len : length t.slots ≡ t.capacity) (idx : ℕ)
    (live : is_live t idx ≡ true) where
  live_lt : idx < length t.slots
  unfolding is_live
  live_lt = ground (arith, live, len)

  -- Marking a live handle succeeds; it is then marked, the marks of the others and what each handle
  -- names are as before.
  pub mark-reads :
      (o : CandoHandleTable) × (cando_handle_mark t idx ≡ some o)
      × ((j : ℕ)
          → (cando_handle_get o j ≡ cando_handle_get t j)
            × (cando_handle_is_marked o j
                ≡ (if j == idx then some true else cando_handle_is_marked t j)))
  unfolding cando_handle_mark cando_handle_get cando_handle_is_marked is_live
  mark-reads =
      let s : CandoHandleSlot = record (handle_at t.slots idx) { marked = true } in
      (
        record t { slots = set t.slots idx s },
        rw live,
        λ j.
            let g = get_or-set t.slots idx j s no_handle_slot live_lt in
            (ground (arith, g, live), ground (arith, g, live)),
      )

  -- A store through a live handle succeeds; the handle then names the pointer, all others what they
  -- did, and the marks are as before.
  pub set-reads :
      (ptr : ℕ)
      → (o : CandoHandleTable) × (cando_handle_set t idx ptr ≡ some o)
        × ((j : ℕ)
            → (cando_handle_get o j ≡ (if j == idx then some ptr else cando_handle_get t j))
              × (cando_handle_is_marked o j ≡ cando_handle_is_marked t j))
  unfolding cando_handle_set cando_handle_get cando_handle_is_marked is_live
  set-reads ptr =
      let s : CandoHandleSlot = record (handle_at t.slots idx) { ptr = ptr } in
      (
        record t { slots = set t.slots idx s },
        rw live,
        λ j.
            let g = get_or-set t.slots idx j s no_handle_slot live_lt in
            (ground (arith, g, live), ground (arith, g, live)),
      )
