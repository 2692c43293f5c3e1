-- ===== src/Vm/Pool/Tests.antt =====
-- Constants added to a small pool, and the theorem about it applied there.
use can_do.Base.{ℕ, ◌≡◌, ◌==◌, refl, Bool, [], ◌∷◌, some, arith}
use can_do.Base.Doubling.{double_until}
use can_do.Vm.Chunk.{chunk_grow}
use can_do.Vm.Pool.{
  Const, number, string, other, ConstPool, same_bytes, shares, find_const, realloc_const,
  chunk_ensure_const, cando_chunk_add_const,
}
use can_do.Vm.Pool.Laws.{IsPool, Adds, add_const-Adds}

everything : Unit {0}
unfolding same_bytes shares find_const realloc_const chunk_ensure_const cando_chunk_add_const
    chunk_grow double_until
everything = tt

abbrev nulls : ℕ → Const
nulls n = other 0

abbrev same_number : ℕ → ℕ → Bool
same_number m n = m == n

-- A number and a string.
abbrev two : ConstPool
two = record { constants = number 7 ∷ string (65 ∷ []) ∷ []; const_count = 2; const_cap = 2 }

two-IsPool : IsPool two
two-IsPool = record { cells = refl; used = omega arith; bound = omega arith }

-- An equal string is found.
again : cando_chunk_add_const nulls same_number two (string (65 ∷ [])) ≡ some (two, 1)
unfolding everything
again = refl

add_const-Adds_example :
    (q : ConstPool) × (idx : ℕ) × (cando_chunk_add_const nulls same_number two (string (66 ∷ []))
      ≡ some (q, idx))
    × Adds same_number two (string (66 ∷ [])) q idx
add_const-Adds_example =
    add_const-Adds nulls same_number two two-IsPool (string (66 ∷ [])) (omega arith)
