-- ===== src/Vm/Machine/Exec.antt =====
-- source/vm/vm.c, vm_run: the dispatch of an instruction to its handler and of an error to the unwinding,
-- and the runs that this makes.
use can_do.Base.{not, if◌then◌else◌, ℕ, zero, suc, ◌+◌, true, false, List, [], ◌∷◌, get_elem?}
use can_do.Core.Value.{bool, null, number, cando_value_equal}
use can_do.Vm.Opcodes.{
  CandoOpcode, op_const, op_null, op_true, op_false, op_pop, op_pop_n, op_dup, op_load_local,
  op_store_local, op_def_local, op_def_const_local, op_load_global, op_store_global, op_def_global,
  op_def_const_global, op_load_upval, op_store_upval, op_close_upval, op_add, op_sub, op_mul,
  op_div, op_mod, op_pow, op_neg, op_pos, op_incr, op_decr, op_eq, op_neq, op_lt, op_gt, op_leq,
  op_geq, op_eq_stack, op_neq_stack, op_lt_stack, op_gt_stack, op_leq_stack, op_geq_stack,
  op_range_check, op_bit_and, op_bit_or, op_bit_xor, op_bit_not, op_lshift, op_rshift, op_not,
  op_and_jump, op_or_jump, op_new_object, op_new_array, op_get_field, op_set_field, op_get_index,
  op_set_index, op_len, op_keys_of, op_vals_of, op_jump, op_jump_if_false, op_jump_if_true, op_loop,
  op_break, op_continue, op_loop_mark, op_loop_end, op_closure, op_call, op_method_call,
  op_fluent_call, op_return, op_tail_call, op_load_vararg, op_vararg_len, op_unpack, op_range_asc,
  op_range_desc, op_for_init, op_for_next, op_for_over_init, op_for_over_next, op_pipe_init,
  op_pipe_next, op_filter_next, op_pipe_end, op_pipe_collect, op_filter_collect, op_try_begin,
  op_try_end, op_catch_begin, op_finally_begin, op_throw, op_reraise, op_async, op_await, op_yield,
  op_thread, op_new_class, op_bind_method, op_inherit, op_mask_pass, op_mask_skip, op_mask_apply,
  op_spread_ret, op_array_spread, op_truncate_ret, op_eq_spread, op_neq_spread, op_lt_spread,
  op_gt_spread, op_leq_spread, op_geq_spread, op_nop, op_halt,
}
use can_do.Vm.Machine.{CandoClosure, vm_halt, vm_runtime_err}
use can_do.Vm.Machine.Act.{
  Run, Act, Effect, Host, no_tail_call, increment_not_number, decrement_not_number, no_async,
  no_yield, raised, stopped, not_modelled, ◌>>=◌, ◌>>◌, pure, gets, modify, or_out, push, read_u16,
  raise,
}
use can_do.Vm.Machine.Basics.{
  run_const, run_pop, run_pop_n, run_dup, run_load_local, run_store_local, run_def_local, run_not,
  run_jump, run_jump_if_false, run_jump_if_true, run_loop, run_load_vararg, run_spread_ret,
  run_array_spread, run_truncate_ret,
}
use can_do.Vm.Machine.Arith.{
  run_add, binary_op, run_div, run_pos, step_top, equality, comparison, number_rel,
  stack_comparison, spread_comparison, range_check,
}
use can_do.Vm.Machine.Calls.{vm_call, run_return}
use can_do.Vm.Machine.Functions.{run_call, load_frame}
use can_do.Vm.Machine.Loops.{loop_mark, loop_end, loop_break, loop_continue, for_next}
use can_do.Vm.Machine.Tries.{
  try_begin, try_end, catch_begin, finally_begin, throw_values, reraise, handle_error,
}

-- READ_BYTE
unfoldable pub read_byte : Act ℕ
read_byte = do
  at ← gets (λ vm. vm.ip)
  byte ← or_out (get_elem? at.block at.offset)
  modify (λ vm. record vm { ip = record at { offset = at.offset + 1 } })
  pure byte

-- The handler that the dispatch table names.
unfoldable pub exec : Host → CandoOpcode → Effect
unfolding push raise
exec h op_const = run_const
exec h op_null = push null
exec h op_true = push (bool true)
exec h op_false = push (bool false)
exec h op_pop = run_pop
exec h op_pop_n = run_pop_n
exec h op_dup = run_dup
exec h op_load_local = run_load_local
exec h op_store_local = run_store_local
exec h op_def_local = run_def_local
exec h op_def_const_local = run_def_local
exec h op_not = run_not
exec h op_add = run_add h
exec h op_sub = binary_op h h.f64_sub
exec h op_mul = binary_op h h.f64_mul
exec h op_div = run_div h
exec h op_mod = binary_op h h.fmod
exec h op_pow = binary_op h h.pow
exec h op_pos = run_pos h
exec h op_incr = step_top h increment_not_number h.f64_inc
exec h op_decr = step_top h decrement_not_number h.f64_dec
exec h op_eq = equality h (λ r. r)
exec h op_neq = equality h not
exec h op_lt = comparison h h.f64_lt
exec h op_gt = comparison h (λ a b. h.f64_lt b a)
exec h op_leq = comparison h (λ a b. h.f64_geq b a)
exec h op_geq = comparison h h.f64_geq
exec h op_eq_stack = stack_comparison (cando_value_equal h.f64_eq)
exec h op_neq_stack = stack_comparison (λ a b. not (cando_value_equal h.f64_eq a b))
exec h op_lt_stack = stack_comparison (number_rel h.f64_lt)
exec h op_gt_stack = stack_comparison (number_rel (λ a b. h.f64_lt b a))
exec h op_leq_stack = stack_comparison (number_rel (λ a b. h.f64_geq b a))
exec h op_geq_stack = stack_comparison (number_rel h.f64_geq)
exec h op_range_check = range_check h
exec h op_and_jump = run_jump_if_false
exec h op_or_jump = run_jump_if_true
exec h op_jump = run_jump
exec h op_jump_if_false = run_jump_if_false
exec h op_jump_if_true = run_jump_if_true
exec h op_loop = run_loop
exec h op_break = loop_break h
exec h op_continue = loop_continue h
exec h op_loop_mark = loop_mark
exec h op_loop_end = loop_end
exec h op_call = run_call h
exec h op_return = run_return
exec h op_tail_call = read_u16 >> raise h no_tail_call
exec h op_load_vararg = run_load_vararg
exec h op_vararg_len = push (number 0)
exec h op_for_next = for_next h
exec h op_try_begin = try_begin
exec h op_try_end = try_end
exec h op_catch_begin = catch_begin
exec h op_finally_begin = finally_begin
exec h op_throw = throw_values
exec h op_reraise = reraise h
exec h op_async = raise h no_async
exec h op_yield = raise h no_yield
exec h op_spread_ret = run_spread_ret
exec h op_array_spread = run_array_spread
exec h op_truncate_ret = run_truncate_ret
exec h op_eq_spread = spread_comparison not (λ a b. not (cando_value_equal h.f64_eq a b))
exec h op_neq_spread = spread_comparison (λ r. r) (λ a b. not (cando_value_equal h.f64_eq a b))
exec h op_lt_spread = spread_comparison (λ r. r) (number_rel h.f64_lt)
exec h op_gt_spread = spread_comparison (λ r. r) (number_rel (λ a b. h.f64_lt b a))
exec h op_leq_spread = spread_comparison (λ r. r) (number_rel (λ a b. h.f64_geq b a))
exec h op_geq_spread = spread_comparison (λ r. r) (number_rel h.f64_geq)
exec h op_nop = pure tt
exec h op_halt = stopped vm_halt
exec h _ = λ vm. not_modelled

-- The table of vm_run, which takes a byte to its handler.
abbrev pub dispatch_table : List CandoOpcode
dispatch_table =
    op_const ∷ op_null ∷ op_true ∷ op_false ∷ op_pop ∷ op_pop_n ∷ op_dup ∷ op_load_local
    ∷ op_store_local ∷ op_def_local ∷ op_def_const_local ∷ op_load_global ∷ op_store_global
    ∷ op_def_global ∷ op_def_const_global ∷ op_load_upval ∷ op_store_upval ∷ op_close_upval ∷ op_add
    ∷ op_sub ∷ op_mul ∷ op_div ∷ op_mod ∷ op_pow ∷ op_neg ∷ op_pos ∷ op_incr ∷ op_decr ∷ op_eq
    ∷ op_neq ∷ op_lt ∷ op_gt ∷ op_leq ∷ op_geq ∷ op_eq_stack ∷ op_neq_stack ∷ op_lt_stack
    ∷ op_gt_stack ∷ op_leq_stack ∷ op_geq_stack ∷ op_range_check ∷ op_bit_and ∷ op_bit_or
    ∷ op_bit_xor ∷ op_bit_not ∷ op_lshift ∷ op_rshift ∷ op_not ∷ op_and_jump ∷ op_or_jump
    ∷ op_new_object ∷ op_new_array ∷ op_get_field ∷ op_set_field ∷ op_get_index ∷ op_set_index
    ∷ op_len ∷ op_keys_of ∷ op_vals_of ∷ op_jump ∷ op_jump_if_false ∷ op_jump_if_true ∷ op_loop
    ∷ op_break ∷ op_continue ∷ op_loop_mark ∷ op_loop_end ∷ op_closure ∷ op_call ∷ op_method_call
    ∷ op_fluent_call ∷ op_return ∷ op_tail_call ∷ op_load_vararg ∷ op_vararg_len ∷ op_unpack
    ∷ op_range_asc ∷ op_range_desc ∷ op_for_init ∷ op_for_next ∷ op_for_over_init ∷ op_for_over_next
    ∷ op_pipe_init ∷ op_pipe_next ∷ op_filter_next ∷ op_pipe_end ∷ op_pipe_collect
    ∷ op_filter_collect ∷ op_try_begin ∷ op_try_end ∷ op_catch_begin ∷ op_finally_begin ∷ op_throw
    ∷ op_reraise ∷ op_async ∷ op_await ∷ op_yield ∷ op_thread ∷ op_new_class ∷ op_bind_method
    ∷ op_inherit ∷ op_mask_pass ∷ op_mask_skip ∷ op_mask_apply ∷ op_spread_ret ∷ op_array_spread
    ∷ op_truncate_ret ∷ op_eq_spread ∷ op_neq_spread ∷ op_lt_spread ∷ op_gt_spread ∷ op_leq_spread
    ∷ op_geq_spread ∷ op_nop ∷ op_halt ∷ []

-- `goto handle_error`
unfoldable pub recover : Run (Unit {0}) → Run (Unit {0})
recover (raised vm) = handle_error vm
recover r = r

-- One instruction: the byte at `ip`, its handler, and the unwinding if that raises an error.
unfoldable pub step : Host → Effect
unfolding read_byte recover
step h vm =
    recover ((do byte ← read_byte; op ← or_out (get_elem? dispatch_table byte); exec h op) vm)

-- At most `fuel` instructions of vm_run.
unfoldable pub run : Host → ℕ → Effect
run h zero = pure tt
run h (suc fuel) = step h >> run h fuel

-- vm_run: the registers are loaded from the topmost frame.
unfoldable pub vm_run : Host → ℕ → Effect
unfolding load_frame run
vm_run h fuel = do load_frame; run h fuel

-- The chunk is called with a null in the place of the function. The wait for threads at the end, and the
-- memory of the closure, are left out.
unfoldable pub cando_vm_exec : Host → ℕ → CandoClosure → Effect
unfolding push vm_call vm_run
cando_vm_exec h fuel closure = do
  push null
  called ← vm_call h closure 0
  if called then vm_run h fuel else stopped vm_runtime_err
