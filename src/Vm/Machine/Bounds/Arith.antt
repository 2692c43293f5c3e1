-- ===== src/Vm/Machine/Bounds/Arith.antt =====
-- source/vm/vm.c: arithmetic and comparison keep to the limits.
use can_do.Base.{ℕ, ◌+◌, ltb, Bool, arith, ◌||◌}
use can_do.Core.Value.{CandoValue, bool, number, string}
use can_do.Vm.Machine.Act.{
  Host, RuntimeError, operands_not_numbers, comparison_not_numbers, range_not_numbers,
  plus_not_number, division_by_zero, push,
}
use can_do.Vm.Machine.Arith.{
  is_object, mismatch, number_op, binary_op, add_values, run_add, divide, run_div, plus, run_pos,
  change_top, step_top, equality, compared, comparison, compare_above, stack_comparison,
  spread_comparison, in_bounds, range_check,
}
use can_do.Vm.Machine.Bounds.{
  Keeps, Keeps-bind, push-IsBounded, peek-IsBounded, pop-IsBounded, pop_n-IsBounded,
  read_u16-IsBounded, raise-IsBounded, if-IsBounded, in_range-IsBounded,
}

mismatch-IsBounded : (h : Host) (e : RuntimeError) (a b : CandoValue) → Keeps (mismatch h e a b)
unfolding mismatch
mismatch-IsBounded h e a b =
    if-IsBounded (is_object a || is_object b) _ _ (λ vm c. tt) (raise-IsBounded h e)

number_op-IsBounded : (h : Host) (op : ℕ → ℕ → ℕ) (a b : CandoValue) → Keeps (number_op h op a b)
unfolding number_op
number_op-IsBounded h op (number a) (number b) = push-IsBounded (number (op a b))
number_op-IsBounded h op a b = mismatch-IsBounded h operands_not_numbers a b

pub binary_op-IsBounded : (h : Host) (op : ℕ → ℕ → ℕ) → Keeps (binary_op h op)
unfolding binary_op
binary_op-IsBounded h op =
    Keeps-bind _ _ pop-IsBounded
      (λ b. Keeps-bind _ _ pop-IsBounded (λ a. number_op-IsBounded h op a b))

add_values-IsBounded : (h : Host) (a b : CandoValue) → Keeps (add_values h a b)
unfolding add_values
add_values-IsBounded h (string a) (string b) = push-IsBounded (string _)
add_values-IsBounded h a b = number_op-IsBounded h h.f64_add a b

pub run_add-IsBounded : (h : Host) → Keeps (run_add h)
unfolding run_add
run_add-IsBounded h = Keeps-bind _ _ (peek-IsBounded 0) (λ b.
    Keeps-bind _ _ (peek-IsBounded 1)
      (λ a. Keeps-bind _ _ (pop_n-IsBounded 2) (λ u. add_values-IsBounded h a b)))

divide-IsBounded : (h : Host) (a b : CandoValue) → Keeps (divide h a b)
unfolding divide
divide-IsBounded h (number a) (number b) =
    if-IsBounded (h.f64_eq b h.f64_zero) _ _ (raise-IsBounded h division_by_zero) (push-IsBounded _)
divide-IsBounded h a b = mismatch-IsBounded h operands_not_numbers a b

pub run_div-IsBounded : (h : Host) → Keeps (run_div h)
unfolding run_div
run_div-IsBounded h =
    Keeps-bind _ _ pop-IsBounded (λ b. Keeps-bind _ _ pop-IsBounded (λ a. divide-IsBounded h a b))

plus-IsBounded : (h : Host) (a : CandoValue) → Keeps (plus h a)
unfolding plus
plus-IsBounded h (number n) = push-IsBounded (number n)
plus-IsBounded h _ = raise-IsBounded h plus_not_number

pub run_pos-IsBounded : (h : Host) → Keeps (run_pos h)
unfolding run_pos
run_pos-IsBounded h = Keeps-bind _ _ pop-IsBounded (plus-IsBounded h)

change_top-IsBounded :
    (h : Host) (e : RuntimeError) (op : ℕ → ℕ) (a : CandoValue) → Keeps (change_top h e op a)
unfolding change_top
change_top-IsBounded h e op (number n) vm b = ground arith
change_top-IsBounded h e op _ vm b = raise-IsBounded h e vm b

pub step_top-IsBounded : (h : Host) (e : RuntimeError) (op : ℕ → ℕ) → Keeps (step_top h e op)
unfolding step_top
step_top-IsBounded h e op = Keeps-bind _ _ (peek-IsBounded 0) (change_top-IsBounded h e op)

pub equality-IsBounded : (h : Host) (post : Bool → Bool) → Keeps (equality h post)
unfolding equality
equality-IsBounded h post = Keeps-bind _ _ pop-IsBounded (λ b.
    Keeps-bind _ _ pop-IsBounded
      (λ a. if-IsBounded (is_object a || is_object b) _ _ (λ vm c. tt) (push-IsBounded _)))

compared-IsBounded : (h : Host) (rel : ℕ → ℕ → Bool) (a b : CandoValue) → Keeps (compared h rel a b)
unfolding compared
compared-IsBounded h rel (number a) (number b) = push-IsBounded (bool (rel a b))
compared-IsBounded h rel a b = mismatch-IsBounded h comparison_not_numbers a b

pub comparison-IsBounded : (h : Host) (rel : ℕ → ℕ → Bool) → Keeps (comparison h rel)
unfolding comparison
comparison-IsBounded h rel =
    Keeps-bind _ _ pop-IsBounded
      (λ b. Keeps-bind _ _ pop-IsBounded (λ a. compared-IsBounded h rel a b))

compare_above-IsBounded :
    (post : Bool → Bool) (rel : CandoValue → CandoValue → Bool) (n depth : ℕ)
    → Keeps (compare_above post rel n depth)
unfolding compare_above
compare_above-IsBounded post rel n depth vm b =
    Keeps-bind _ (λ u. push _) (pop_n-IsBounded (n + 1)) (λ u. push-IsBounded _) vm b

pub stack_comparison-IsBounded :
    (rel : CandoValue → CandoValue → Bool) → Keeps (stack_comparison rel)
unfolding stack_comparison
stack_comparison-IsBounded rel = Keeps-bind _ _ read_u16-IsBounded (λ n vm b.
    in_range-IsBounded (ltb n vm.stack_top) _ (compare_above-IsBounded (λ r. r) rel n vm.stack_top)
      vm b)

pub spread_comparison-IsBounded :
    (post : Bool → Bool) (rel : CandoValue → CandoValue → Bool) → Keeps (spread_comparison post rel)
unfolding spread_comparison
spread_comparison-IsBounded post rel vm b =
    in_range-IsBounded (ltb vm.last_ret_count vm.stack_top) _
      (compare_above-IsBounded post rel vm.last_ret_count vm.stack_top) vm b

in_bounds-IsBounded :
    (h : Host) (flags : ℕ) (lo v hi : CandoValue) → Keeps (in_bounds h flags lo v hi)
unfolding in_bounds
in_bounds-IsBounded h flags (number lo) (number v) (number hi) = push-IsBounded _
in_bounds-IsBounded h flags _ _ _ = raise-IsBounded h range_not_numbers

pub range_check-IsBounded : (h : Host) → Keeps (range_check h)
unfolding range_check
range_check-IsBounded h = Keeps-bind _ _ read_u16-IsBounded (λ flags.
    Keeps-bind _ _ pop-IsBounded (λ hi.
      Keeps-bind _ _ pop-IsBounded
        (λ v. Keeps-bind _ _ pop-IsBounded (λ lo. in_bounds-IsBounded h flags lo v hi))))
