-- ===== src/Vm/Machine/Arith.antt =====
-- source/vm/vm.c, vm_run: arithmetic and comparison. An operand that is an object may call a metamethod,
-- which is not modelled.
use can_do.Base.{
  ℕ, zero, suc, ◌+◌, ◌-◌, ◌/◌, ◌%◌, ◌==◌, ltb, if◌then◌else◌, Bool, true, false, ◌&&◌, ◌||◌, ◌++◌,
}
use can_do.Core.Value.{CandoValue, bool, number, string, object, cando_value_equal}
use can_do.Vm.Machine.{write}
use can_do.Vm.Machine.Act.{
  Effect, Host, RuntimeError, operands_not_numbers, division_by_zero, plus_not_number,
  comparison_not_numbers, range_not_numbers, not_modelled, ◌>>=◌, ◌>>◌, gets, modify, in_range,
  push, pop, peek, pop_n, read_u16, raise,
}

abbrev pub is_object : CandoValue → Bool
is_object (object handle) = true
is_object _ = false

-- OP_SUB, OP_MUL, OP_MOD and OP_POW, and OP_ADD but for two strings.
-- Two operands that are not both numbers.
unfoldable pub mismatch : Host → RuntimeError → CandoValue → CandoValue → Effect
unfolding raise
mismatch h e a b = if is_object a || is_object b then (λ vm. not_modelled) else raise h e

unfoldable pub number_op : Host → (ℕ → ℕ → ℕ) → CandoValue → CandoValue → Effect
unfolding push mismatch
number_op h op (number a) (number b) = push (number (op a b))
number_op h op a b = mismatch h operands_not_numbers a b

-- OP_SUB, OP_MUL, OP_MOD and OP_POW.
unfoldable pub binary_op : Host → (ℕ → ℕ → ℕ) → Effect
unfolding pop number_op
binary_op h op = do b ← pop; a ← pop; number_op h op a b

unfoldable pub add_values : Host → CandoValue → CandoValue → Effect
unfolding push number_op
add_values h (string a) (string b) = push (string (a ++ b))
add_values h a b = number_op h h.f64_add a b

-- The assertion of the second PEEK comes before the values are popped.
unfoldable pub run_add : Host → Effect
unfolding peek pop_n add_values
run_add h = do b ← peek 0; a ← peek 1; pop_n 2; add_values h a b

unfoldable pub divide : Host → CandoValue → CandoValue → Effect
unfolding push raise mismatch
divide h (number a) (number b) =
    if h.f64_eq b h.f64_zero then raise h division_by_zero else push (number (h.f64_div a b))
divide h a b = mismatch h operands_not_numbers a b

unfoldable pub run_div : Host → Effect
unfolding pop divide
run_div h = do b ← pop; a ← pop; divide h a b

unfoldable pub plus : Host → CandoValue → Effect
unfolding push raise
plus h (number n) = push (number n)
plus h _ = raise h plus_not_number

unfoldable pub run_pos : Host → Effect
unfolding pop plus
run_pos h = do a ← pop; plus h a

unfoldable pub change_top : Host → RuntimeError → (ℕ → ℕ) → CandoValue → Effect
unfolding raise
change_top h e op (number n) =
    modify (λ vm. record vm { stack = write vm.stack (vm.stack_top - 1) (number (op n)) })
change_top h e op _ = raise h e

-- OP_INCR and OP_DECR: the number on top changes in place.
unfoldable pub step_top : Host → RuntimeError → (ℕ → ℕ) → Effect
unfolding peek change_top
step_top h e op = do a ← peek 0; change_top h e op a

-- OP_EQ and OP_NEQ, with what is made of the result.
unfoldable pub equality : Host → (Bool → Bool) → Effect
unfolding pop push cando_value_equal
equality h post = do
  b ← pop
  a ← pop
  if is_object a || is_object b
      then (λ vm. not_modelled)
      else push (bool (post (cando_value_equal h.f64_eq a b)))

unfoldable pub compared : Host → (ℕ → ℕ → Bool) → CandoValue → CandoValue → Effect
unfolding push mismatch
compared h rel (number a) (number b) = push (bool (rel a b))
compared h rel a b = mismatch h comparison_not_numbers a b

-- OP_LT, OP_GT, OP_LEQ and OP_GEQ.
unfoldable pub comparison : Host → (ℕ → ℕ → Bool) → Effect
unfolding pop compared
comparison h rel = do b ← pop; a ← pop; compared h rel a b

-- A comparison of numbers, false for other values.
unfoldable pub number_rel : (ℕ → ℕ → Bool) → CandoValue → CandoValue → Bool
number_rel rel (number a) (number b) = rel a b
number_rel rel _ _ = false

-- Whether a value relates to the `n` values from an address on.
unfoldable pub all_hold :
    (CandoValue → CandoValue → Bool) → CandoValue → ℕ → ℕ → (ℕ → CandoValue) → Bool
all_hold rel left zero at stack = true
all_hold rel left (suc n) at stack =
    let rest = all_hold rel left n (at + 1) stack in if rel left (stack at) then rest else false

unfoldable pub compare_above : (Bool → Bool) → (CandoValue → CandoValue → Bool) → ℕ → ℕ → Effect
unfolding all_hold pop_n push
compare_above post rel n depth = do
  left ← gets (λ vm. vm.stack (depth - n - 1))
  result ← gets (λ vm. all_hold rel left n (depth - n) vm.stack)
  pop_n (n + 1)
  push (bool (post result))

-- The OP_*_STACK comparisons: one value against the `n` values above it.
unfoldable pub stack_comparison : (CandoValue → CandoValue → Bool) → Effect
unfolding read_u16 compare_above
stack_comparison rel = do
  n ← read_u16
  depth ← gets (λ vm. vm.stack_top)
  in_range (ltb n depth) (compare_above (λ r. r) rel n depth)

-- The OP_*_SPREAD comparisons: one value against the results of the last call, whose number is never
-- negative. OP_EQ_SPREAD asks whether one result is equal: not all are different.
unfoldable pub spread_comparison : (Bool → Bool) → (CandoValue → CandoValue → Bool) → Effect
unfolding compare_above
spread_comparison post rel = do
  n ← gets (λ vm. vm.last_ret_count)
  depth ← gets (λ vm. vm.stack_top)
  in_range (ltb n depth) (compare_above post rel n depth)

unfoldable pub in_bounds : Host → ℕ → CandoValue → CandoValue → CandoValue → Effect
unfolding push raise
in_bounds h flags (number lo) (number v) (number hi) = push (
    bool (
      (if flags % 2 == 1 then h.f64_geq v lo else h.f64_lt lo v)
      && (if flags / 2 % 2 == 1 then h.f64_geq hi v else h.f64_lt v hi)))
in_bounds h flags _ _ _ = raise h range_not_numbers

unfoldable pub range_check : Host → Effect
unfolding read_u16 pop in_bounds
range_check h = do flags ← read_u16; hi ← pop; v ← pop; lo ← pop; in_bounds h flags lo v hi
