-- ===== src/Vm/Machine/Bounds/Steps.antt =====
-- source/vm/vm.c, vm_run: every instruction keeps to the limits, and so does every run.
use can_do.Base.{not, ℕ, zero, suc, Option, none, some, true, false, arith, get_elem?}
use can_do.Core.Value.{bool, null, number, cando_value_equal}
use can_do.Vm.Opcodes.{
  CandoOpcode, op_eq_spread, op_neq_spread, op_lt_spread, op_gt_spread, op_leq_spread,
  op_geq_spread, op_add, op_sub, op_mul, op_div, op_mod, op_pow, op_pos, op_incr, op_decr, op_eq,
  op_neq, op_lt, op_gt, op_leq, op_geq, op_eq_stack, op_neq_stack, op_lt_stack, op_gt_stack,
  op_leq_stack, op_geq_stack, op_range_check, op_and_jump, op_array_spread, op_async, op_break,
  op_call, op_catch_begin, op_const, op_continue, op_def_const_local, op_def_local, op_dup,
  op_false, op_finally_begin, op_for_next, op_halt, op_jump, op_jump_if_false, op_jump_if_true,
  op_load_local, op_load_vararg, op_loop, op_loop_end, op_loop_mark, op_nop, op_not, op_null,
  op_or_jump, op_pop, op_pop_n, op_reraise, op_return, op_spread_ret, op_store_local, op_tail_call,
  op_throw, op_true, op_truncate_ret, op_try_begin, op_try_end, op_vararg_len, op_yield,
}
use can_do.Vm.Machine.{CandoVm, CandoClosure}
use can_do.Vm.Machine.Act.{
  Run, Host, no_tail_call, increment_not_number, decrement_not_number, no_async, no_yield, ok,
  raised, stopped, assertion_failed, overrun, out_of_fuel, out_of_bounds, wrong_tag, not_modelled,
  or_out,
}
use can_do.Vm.Machine.Exec.{
  read_byte, exec, dispatch_table, recover, step, run, vm_run, cando_vm_exec,
}
use can_do.Vm.Machine.Bounds.{
  Ends, IsBounded, Keeps, Keeps-bind, if-IsBounded, push-IsBounded, read_u16-IsBounded,
  raise-IsBounded,
}
use can_do.Vm.Machine.Arith.{number_rel}
use can_do.Vm.Machine.Bounds.Arith.{
  run_add-IsBounded, binary_op-IsBounded, run_div-IsBounded, run_pos-IsBounded, step_top-IsBounded,
  equality-IsBounded, comparison-IsBounded, stack_comparison-IsBounded, spread_comparison-IsBounded,
  range_check-IsBounded,
}
use can_do.Vm.Machine.Bounds.Basics.{
  run_const-IsBounded, run_def_local-IsBounded, run_loop-IsBounded, run_pop-IsBounded,
  run_pop_n-IsBounded, run_dup-IsBounded, run_load_local-IsBounded, run_store_local-IsBounded,
  run_not-IsBounded, run_jump-IsBounded, run_jump_if_false-IsBounded, run_jump_if_true-IsBounded,
  run_load_vararg-IsBounded, run_spread_ret-IsBounded, run_array_spread-IsBounded,
  run_truncate_ret-IsBounded,
}
use can_do.Vm.Machine.Bounds.Control.{
  loop_mark-IsBounded, try_begin-IsBounded, loop_end-IsBounded, loop_continue-IsBounded,
  try_end-IsBounded, finally_begin-IsBounded, for_next-IsBounded, loop_break-IsBounded,
}
use can_do.Vm.Machine.Bounds.Unwinding.{
  catch_begin-IsBounded, throw_values-IsBounded, reraise-IsBounded, handle_error-IsBounded,
}
use can_do.Vm.Machine.Bounds.Functions.{run_call-IsBounded, load_frame-IsBounded}
use can_do.Vm.Machine.Bounds.Returns.{run_return-IsBounded, vm_call-IsBounded}

exec-IsBounded : (h : Host) (op : CandoOpcode) → Keeps (exec h op)
unfolding exec
exec-IsBounded h op_const = run_const-IsBounded
exec-IsBounded h op_null = push-IsBounded null
exec-IsBounded h op_true = push-IsBounded (bool true)
exec-IsBounded h op_false = push-IsBounded (bool false)
exec-IsBounded h op_pop = run_pop-IsBounded
exec-IsBounded h op_pop_n = run_pop_n-IsBounded
exec-IsBounded h op_dup = run_dup-IsBounded
exec-IsBounded h op_load_local = run_load_local-IsBounded
exec-IsBounded h op_store_local = run_store_local-IsBounded
exec-IsBounded h op_def_local = run_def_local-IsBounded
exec-IsBounded h op_def_const_local = run_def_local-IsBounded
exec-IsBounded h op_not = run_not-IsBounded
exec-IsBounded h op_add = run_add-IsBounded h
exec-IsBounded h op_sub = binary_op-IsBounded h h.f64_sub
exec-IsBounded h op_mul = binary_op-IsBounded h h.f64_mul
exec-IsBounded h op_div = run_div-IsBounded h
exec-IsBounded h op_mod = binary_op-IsBounded h h.fmod
exec-IsBounded h op_pow = binary_op-IsBounded h h.pow
exec-IsBounded h op_pos = run_pos-IsBounded h
exec-IsBounded h op_incr = step_top-IsBounded h increment_not_number h.f64_inc
exec-IsBounded h op_decr = step_top-IsBounded h decrement_not_number h.f64_dec
exec-IsBounded h op_eq = equality-IsBounded h (λ r. r)
exec-IsBounded h op_neq = equality-IsBounded h not
exec-IsBounded h op_lt = comparison-IsBounded h h.f64_lt
exec-IsBounded h op_gt = comparison-IsBounded h (λ a b. h.f64_lt b a)
exec-IsBounded h op_leq = comparison-IsBounded h (λ a b. h.f64_geq b a)
exec-IsBounded h op_geq = comparison-IsBounded h h.f64_geq
exec-IsBounded h op_eq_stack = stack_comparison-IsBounded (cando_value_equal h.f64_eq)
exec-IsBounded h op_neq_stack =
    stack_comparison-IsBounded (λ a b. not (cando_value_equal h.f64_eq a b))
exec-IsBounded h op_lt_stack = stack_comparison-IsBounded (number_rel h.f64_lt)
exec-IsBounded h op_gt_stack = stack_comparison-IsBounded (number_rel (λ a b. h.f64_lt b a))
exec-IsBounded h op_leq_stack = stack_comparison-IsBounded (number_rel (λ a b. h.f64_geq b a))
exec-IsBounded h op_geq_stack = stack_comparison-IsBounded (number_rel h.f64_geq)
exec-IsBounded h op_range_check = range_check-IsBounded h
exec-IsBounded h op_and_jump = run_jump_if_false-IsBounded
exec-IsBounded h op_or_jump = run_jump_if_true-IsBounded
exec-IsBounded h op_jump = run_jump-IsBounded
exec-IsBounded h op_jump_if_false = run_jump_if_false-IsBounded
exec-IsBounded h op_jump_if_true = run_jump_if_true-IsBounded
exec-IsBounded h op_loop = run_loop-IsBounded
exec-IsBounded h op_break = loop_break-IsBounded h
exec-IsBounded h op_continue = loop_continue-IsBounded h
exec-IsBounded h op_loop_mark = loop_mark-IsBounded
exec-IsBounded h op_loop_end = loop_end-IsBounded
exec-IsBounded h op_call = run_call-IsBounded h
exec-IsBounded h op_return = run_return-IsBounded
exec-IsBounded h op_tail_call =
    Keeps-bind _ _ read_u16-IsBounded (λ a. raise-IsBounded h no_tail_call)
exec-IsBounded h op_load_vararg = run_load_vararg-IsBounded
exec-IsBounded h op_vararg_len = push-IsBounded (number 0)
exec-IsBounded h op_for_next = for_next-IsBounded h
exec-IsBounded h op_try_begin = try_begin-IsBounded
exec-IsBounded h op_try_end = try_end-IsBounded
exec-IsBounded h op_catch_begin = catch_begin-IsBounded
exec-IsBounded h op_finally_begin = finally_begin-IsBounded
exec-IsBounded h op_throw = throw_values-IsBounded
exec-IsBounded h op_reraise = reraise-IsBounded h
exec-IsBounded h op_async = raise-IsBounded h no_async
exec-IsBounded h op_yield = raise-IsBounded h no_yield
exec-IsBounded h op_spread_ret = run_spread_ret-IsBounded
exec-IsBounded h op_array_spread = run_array_spread-IsBounded
exec-IsBounded h op_truncate_ret = run_truncate_ret-IsBounded
exec-IsBounded h op_eq_spread =
    spread_comparison-IsBounded not (λ a b. not (cando_value_equal h.f64_eq a b))
exec-IsBounded h op_neq_spread =
    spread_comparison-IsBounded (λ r. r) (λ a b. not (cando_value_equal h.f64_eq a b))
exec-IsBounded h op_lt_spread = spread_comparison-IsBounded (λ r. r) (number_rel h.f64_lt)
exec-IsBounded h op_gt_spread =
    spread_comparison-IsBounded (λ r. r) (number_rel (λ a b. h.f64_lt b a))
exec-IsBounded h op_leq_spread =
    spread_comparison-IsBounded (λ r. r) (number_rel (λ a b. h.f64_geq b a))
exec-IsBounded h op_geq_spread = spread_comparison-IsBounded (λ r. r) (number_rel h.f64_geq)
exec-IsBounded h op_nop = λ vm b. b
exec-IsBounded h op_halt = λ vm b. b
exec-IsBounded h _ = λ vm b. tt

read_byte-IsBounded : Keeps read_byte
unfolding read_byte
read_byte-IsBounded vm b = ground arith

recover-IsBounded : (r : Run (Unit {0})) → Ends IsBounded r → Ends IsBounded (recover r)
unfolding recover
recover-IsBounded (ok a vm) b = b
recover-IsBounded (raised vm) b = handle_error-IsBounded vm b
recover-IsBounded (stopped r vm) b = b
recover-IsBounded overrun b = b
recover-IsBounded out_of_fuel b = b
recover-IsBounded assertion_failed b = b
recover-IsBounded out_of_bounds b = b
recover-IsBounded wrong_tag b = b
recover-IsBounded not_modelled b = b

or_out-IsBounded : {A : Type 0} (o : Option A) → Keeps (or_out o)
or_out-IsBounded none vm b = tt
or_out-IsBounded (some a) vm b = b

step-IsBounded : (h : Host) → Keeps (step h)
unfolding step
step-IsBounded h vm b = recover-IsBounded _ (
    Keeps-bind _ _ read_byte-IsBounded
      (λ byte. Keeps-bind _ _ (or_out-IsBounded (get_elem? dispatch_table byte)) (exec-IsBounded h))
      vm b)

run-IsBounded : (h : Host) (fuel : ℕ) → Keeps (run h fuel)
unfolding run
run-IsBounded h zero vm b = b
run-IsBounded h (suc fuel) vm b = Keeps-bind _ _ (step-IsBounded h) (λ u. run-IsBounded h fuel) vm b

vm_run-IsBounded : (h : Host) (fuel : ℕ) → Keeps (vm_run h fuel)
unfolding vm_run
vm_run-IsBounded h fuel = Keeps-bind _ _ load_frame-IsBounded (λ u. run-IsBounded h fuel)

-- A chunk that is executed in a state within the limits, in a build with assertions: no push, no call,
-- no loop and no try block is entered past the end of its array, every unwinding of an error comes to an
-- end, and the state in which the run ends, if it ends in one, is within the limits: at most 2048
-- values, 256 frames, 64 open try blocks and 64 loops, with the depths that open try blocks save and
-- the bases of the frames in range. Nothing is said of a run once an assertion fails, a local, a
-- result or a thrown value lies outside its array, or an instruction is not
-- modelled, as OP_CALL of a native function or of a closure object, or OP_CLOSURE.
pub cando_vm_exec-IsBounded :
    (h : Host) (fuel : ℕ) (closure : CandoClosure) (vm : CandoVm)
    → IsBounded vm
    → Ends IsBounded (cando_vm_exec h fuel closure vm)
unfolding cando_vm_exec
cando_vm_exec-IsBounded h fuel closure = Keeps-bind _ _ (push-IsBounded null) (λ u.
    Keeps-bind _ _ (vm_call-IsBounded h closure 0)
      (λ called. if-IsBounded called _ _ (vm_run-IsBounded h fuel) (λ vm b. b)))
