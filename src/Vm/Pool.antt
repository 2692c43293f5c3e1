-- ===== src/Vm/Pool.antt =====
-- source/vm/chunk.c: the constant pool of a chunk, a block of `const_cap` cells of which the first
-- `const_count` are in use. Numbers are compared by a parameter, equality of doubles, and a string is the
-- list of its bytes. Any other value is told apart by a number. The cells that `realloc` adds hold
-- whatever memory held: `junk`. `none` is a failed assertion, which aborts, or a capacity loop that does
-- not end. The references that a hit releases are not part of the model.
pub mod Laws
mod Tests
use can_do.Base.{
  ℕ, zero, suc, ◌+◌, ◌*◌, ◌%◌, ◌^◌, ltb, leb, ◌==◌, if◌then◌else◌, Bool, true, false, ◌&&◌, List,
  [], ◌∷◌, Option, none, some, set,
}
use can_do.Base.Doubling.{double_until}
use can_do.Vm.Chunk.{chunk_grow}

pub data Const : Type 0 where
  number : ℕ → Const
  string : List ℕ → Const
  other : ℕ → Const

pub record ConstPool : Type 0 where
  pub constants : List Const
  pub const_count : ℕ
  pub const_cap : ℕ

-- Equal lengths, then memcmp.
unfoldable pub same_bytes : List ℕ → List ℕ → Bool
same_bytes [] [] = true
same_bytes [] (b ∷ bs) = false
same_bytes (a ∷ xs) [] = false
same_bytes (a ∷ xs) (b ∷ bs) = (a == b) && same_bytes xs bs

-- Whether a value stands for the one that is added. Only numbers and strings are shared.
unfoldable pub shares : (ℕ → ℕ → Bool) → Const → Const → Bool
unfolding same_bytes
shares num_eq (number m) (number n) = num_eq m n
shares num_eq (string a) (string b) = same_bytes a b
shares num_eq _ _ = false

-- The search among the first `n` constants, from index `i` on.
unfoldable pub find_const : (ℕ → ℕ → Bool) → Const → List Const → ℕ → ℕ → Option ℕ
find_const num_eq val cells zero i = none
find_const num_eq val [] (suc n) i = none
find_const num_eq val (c ∷ cells) (suc n) i =
    let rest = find_const num_eq val cells n (i + 1) in if shares num_eq c val then some i else rest

unfoldable pub realloc_const : (ℕ → Const) → List Const → ℕ → List Const
realloc_const junk cells zero = []
realloc_const junk [] (suc n) = junk n ∷ realloc_const junk [] n
realloc_const junk (c ∷ cells) (suc n) = c ∷ realloc_const junk cells n

unfoldable pub chunk_ensure_const : (ℕ → Const) → ConstPool → ℕ → Option ConstPool
unfolding chunk_grow realloc_const double_until
chunk_ensure_const junk p extra =
    let need = (p.const_count + extra) % 2 ^ 32 in
    if leb need p.const_cap
    then some p
    else (elim (double_until 32 32 (chunk_grow p.const_cap) need) [
      | none ↦ none
      | some new_cap ↦
          some
            (record p { constants = realloc_const junk p.constants new_cap; const_cap = new_cap })
    ])

-- The pool and the index of the constant.
unfoldable pub cando_chunk_add_const :
    (ℕ → Const) → (ℕ → ℕ → Bool) → ConstPool → Const → Option (ConstPool × ℕ)
unfolding find_const shares chunk_ensure_const
cando_chunk_add_const junk num_eq p val = elim (find_const num_eq val p.constants p.const_count 0) [
  | some i ↦ some (p, i % 2 ^ 16)
  | none ↦
      if ltb p.const_count 65535
      then (elim (chunk_ensure_const junk p 1) [
        | none ↦ none
        | some q ↦ some (
          record q {
            constants = set q.constants q.const_count val;
            const_count = (q.const_count + 1) % 2 ^ 32;
          },
          q.const_count % 2 ^ 16,
        )
      ])
      else none
]
