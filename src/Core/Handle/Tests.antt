-- ===== src/Core/Handle/Tests.antt =====
-- The handle operations run on a small table, and the theorems about them applied there.
use can_do.Base.{ℕ, ◌≡◌, refl, ◌==◌, if◌then◌else◌, true, false, none, some, arith}
use can_do.Core.Handle.{
  CandoHandleTable, slot_next_free, chain_slots, cando_handle_table_init, handle_table_grow,
  cando_handle_alloc, cando_handle_get, cando_handle_set, cando_handle_free, cando_handle_mark,
  cando_handle_clear_marks, cando_handle_is_marked, is_live,
}
use can_do.Core.Handle.FreeList.{IsTable}
use can_do.Core.Handle.Laws.{init-IsTable, Names, alloc-Names, Frees, free-Frees}
use can_do.Core.Handle.Marks.{clear_marks-reads, mark-reads, set-reads}

everything : Unit {0}
unfolding slot_next_free chain_slots cando_handle_table_init handle_table_grow cando_handle_alloc
    cando_handle_get cando_handle_set cando_handle_free cando_handle_mark cando_handle_is_marked
    is_live
everything = tt

-- A table of one slot, with one handle: it is full.
abbrev full : CandoHandleTable
full = (cando_handle_alloc (cando_handle_table_init 1) 500).0

init-IsTable_example : IsTable (cando_handle_table_init 1)
init-IsTable_example = init-IsTable 1 (omega arith)

one-IsTable : IsTable (cando_handle_table_init 1)
one-IsTable = init-IsTable 1 (omega arith)

one_capacity : (cando_handle_table_init 1).capacity ≡ 1
unfolding everything
one_capacity = refl

full-IsTable : IsTable full
full-IsTable =
    (alloc-Names (cando_handle_table_init 1) one-IsTable (omega (arith, one_capacity)) 500).valid

full_capacity : full.capacity ≡ 1
unfolding everything
full_capacity = refl

full_live : is_live full 0 ≡ true
unfolding everything
full_live = refl

-- The next handle after the table has grown.
grown_index : (cando_handle_alloc full 600).1 ≡ 1
unfolding everything
grown_index = refl

alloc-Names_example : Names full 600 (cando_handle_alloc full 600).1 (cando_handle_alloc full 600).0
alloc-Names_example = alloc-Names full full-IsTable (omega (arith, full_capacity)) 600

free-Frees_example : (o : CandoHandleTable) × (cando_handle_free full 0 ≡ some o) × Frees full 0 o
free-Frees_example = free-Frees full full-IsTable 0 full_live

clear_marks-reads_example :
    (cando_handle_get (cando_handle_clear_marks full) 0 ≡ cando_handle_get full 0)
    × (cando_handle_is_marked (cando_handle_clear_marks full) 0
        ≡ (if is_live full 0 then some false else none))
clear_marks-reads_example = clear_marks-reads full 0

mark-reads_example :
    (o : CandoHandleTable) × (cando_handle_mark full 0 ≡ some o)
    × ((j : ℕ)
        → (cando_handle_get o j ≡ cando_handle_get full j)
          × (cando_handle_is_marked o j
              ≡ (if j == 0 then some true else cando_handle_is_marked full j)))
mark-reads_example = mark-reads full full-IsTable.len 0 full_live

set-reads_example :
    (o : CandoHandleTable) × (cando_handle_set full 0 700 ≡ some o)
    × ((j : ℕ)
        → (cando_handle_get o j ≡ (if j == 0 then some 700 else cando_handle_get full j))
          × (cando_handle_is_marked o j ≡ cando_handle_is_marked full j))
set-reads_example = set-reads full full-IsTable.len 0 full_live 700
