-- ===== src/Vm/Machine/Basics.antt =====
-- source/vm/vm.c, vm_run: the handlers of constants, the stack, locals, logic, jumps and the counts of
-- spread results.
use can_do.Base.{ℕ, ◌+◌, ◌-◌, ◌%◌, ◌^◌, ltb, leb, if◌then◌else◌, not, Option, none, some, get_elem?}
use can_do.Core.Value.{null, bool}
use can_do.Vm.Machine.{CodePtr, write}
use can_do.Vm.Machine.Act.{
  Effect, ◌>>=◌, ◌>>◌, pure, gets, modify, when, or_out, push, pop, peek, pop_n, read_u16, jump,
  top_frame, local_at, vm_is_truthy,
}

unfoldable pub run_const : Effect
unfolding push read_u16 top_frame
run_const = do
  idx ← read_u16
  frame ← top_frame
  val ← or_out (get_elem? frame.closure.constants idx)
  push val

unfoldable pub run_pop : Effect
unfolding pop
run_pop = do _ ← pop; pure tt

unfoldable pub run_pop_n : Effect
unfolding pop_n read_u16
run_pop_n = do n ← read_u16; pop_n n

unfoldable pub run_dup : Effect
unfolding peek push
run_dup = do val ← peek 0; push val

unfoldable pub run_load_local : Effect
unfolding read_u16 local_at push
run_load_local = do slot ← read_u16; at ← local_at slot; val ← gets (λ vm. vm.stack at); push val

unfoldable pub run_store_local : Effect
unfolding read_u16 local_at peek
run_store_local = do
  slot ← read_u16
  at ← local_at slot
  val ← peek 0
  modify (λ vm. record vm { stack = write vm.stack at val })

-- OP_DEF_LOCAL and OP_DEF_CONST_LOCAL have the same body.
unfoldable pub run_def_local : Effect
unfolding read_u16 local_at pop
run_def_local = do
  slot ← read_u16
  at ← local_at slot
  val ← pop
  modify (λ vm. record vm { stack = write vm.stack at val; spread_extra = 0 })

unfoldable pub run_not : Effect
unfolding pop push vm_is_truthy
run_not = do val ← pop; push (bool (not (vm_is_truthy val)))

unfoldable pub run_jump : Effect
unfolding read_u16 jump
run_jump = do off ← read_u16; jump off

-- OP_JUMP_IF_FALSE, and OP_AND_JUMP, whose body is the same.
unfoldable pub run_jump_if_false : Effect
unfolding read_u16 jump peek vm_is_truthy
run_jump_if_false = do off ← read_u16; val ← peek 0; when (not (vm_is_truthy val)) (jump off)

-- OP_JUMP_IF_TRUE, and OP_OR_JUMP, whose body is the same.
unfoldable pub run_jump_if_true : Effect
unfolding read_u16 jump peek vm_is_truthy
run_jump_if_true = do off ← read_u16; val ← peek 0; when (vm_is_truthy val) (jump off)

-- `ip` less a number of bytes.
unfoldable pub back_by : CodePtr → ℕ → Option CodePtr
back_by at n = if leb n at.offset then some (record at { offset = at.offset - n }) else none

unfoldable pub run_loop : Effect
unfolding read_u16 back_by
run_loop = do
  back ← read_u16
  at ← gets (λ vm. vm.ip)
  target ← or_out (back_by at back)
  modify (λ vm. record vm { ip = target })

-- The varargs are not there yet: a null, and the number 0.0.
unfoldable pub run_load_vararg : Effect
unfolding read_u16 push
run_load_vararg = do _ ← read_u16; push null

unfoldable pub run_spread_ret : Effect
run_spread_ret =
    modify (λ vm. record vm {
      spread_extra = (vm.spread_extra + vm.last_ret_count + 2 ^ 32 - 1) % 2 ^ 32;
    })

unfoldable pub run_array_spread : Effect
run_array_spread =
    modify
      (λ vm. record vm { array_extra = (vm.array_extra + vm.last_ret_count + 2 ^ 32 - 1) % 2 ^ 32 })

-- A negative count pops nothing.
unfoldable pub run_truncate_ret : Effect
unfolding pop_n
run_truncate_ret = do
  count ← gets (λ vm. vm.last_ret_count)
  when (ltb count (2 ^ 31)) (pop_n (count - 1))
  modify (λ vm. record vm { last_ret_count = 1 })
