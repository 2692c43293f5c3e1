-- ===== src/Vm/Machine/Bounds/Basics.antt =====
-- source/vm/vm.c: the handlers of values, jumps and counts keep to the limits.
use can_do.Base.{◌-◌, arith}
use can_do.Vm.Machine.Act.{push, pop, peek, read_u16, jump, top_frame, local_at}
use can_do.Vm.Machine.Basics.{
  run_const, run_pop, run_pop_n, run_dup, run_load_local, run_store_local, run_def_local, run_not,
  run_jump, run_jump_if_false, run_jump_if_true, back_by, run_loop, run_load_vararg, run_spread_ret,
  run_array_spread, run_truncate_ret,
}
use can_do.Vm.Machine.Bounds.{
  Keeps, Keeps-bind, pop_n-IsBounded, read_u16-IsBounded, jump-IsBounded,
}

pub run_const-IsBounded : Keeps run_const
unfolding run_const read_u16 top_frame push
run_const-IsBounded vm b = ground arith

pub run_def_local-IsBounded : Keeps run_def_local
unfolding run_def_local read_u16 local_at pop top_frame
run_def_local-IsBounded vm b = ground arith

pub run_loop-IsBounded : Keeps run_loop
unfolding run_loop read_u16 back_by
run_loop-IsBounded vm b = ground arith

pub run_pop-IsBounded : Keeps run_pop
unfolding run_pop pop
run_pop-IsBounded vm b = ground arith

pub run_pop_n-IsBounded : Keeps run_pop_n
unfolding run_pop_n
run_pop_n-IsBounded = Keeps-bind _ _ read_u16-IsBounded pop_n-IsBounded

pub run_dup-IsBounded : Keeps run_dup
unfolding run_dup peek push
run_dup-IsBounded vm b = ground arith

pub run_load_local-IsBounded : Keeps run_load_local
unfolding run_load_local read_u16 local_at top_frame push
run_load_local-IsBounded vm b = ground arith

pub run_store_local-IsBounded : Keeps run_store_local
unfolding run_store_local read_u16 local_at top_frame peek
run_store_local-IsBounded vm b = ground arith

pub run_not-IsBounded : Keeps run_not
unfolding run_not pop push
run_not-IsBounded vm b = ground arith

pub run_jump-IsBounded : Keeps run_jump
unfolding run_jump
run_jump-IsBounded = Keeps-bind _ _ read_u16-IsBounded jump-IsBounded

pub run_jump_if_false-IsBounded : Keeps run_jump_if_false
unfolding run_jump_if_false read_u16 peek jump
run_jump_if_false-IsBounded vm b = ground arith

pub run_jump_if_true-IsBounded : Keeps run_jump_if_true
unfolding run_jump_if_true read_u16 peek jump
run_jump_if_true-IsBounded vm b = ground arith

pub run_load_vararg-IsBounded : Keeps run_load_vararg
unfolding run_load_vararg read_u16 push
run_load_vararg-IsBounded vm b = ground arith

pub run_spread_ret-IsBounded : Keeps run_spread_ret
unfolding run_spread_ret
run_spread_ret-IsBounded vm b = ground arith

pub run_array_spread-IsBounded : Keeps run_array_spread
unfolding run_array_spread
run_array_spread-IsBounded vm b = ground arith

pub run_truncate_ret-IsBounded : Keeps run_truncate_ret
unfolding run_truncate_ret
run_truncate_ret-IsBounded vm b =
    let p = pop_n-IsBounded (vm.last_ret_count - 1) vm b in ground arith
