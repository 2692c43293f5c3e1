-- ===== src/Vm/Machine/Tests.antt =====
-- Runs of the machine of source/vm/vm.c on small pieces of code, and its theorems at concrete states.
use can_do.Base.{
  ℕ, ◌+◌, ◌-◌, leb, false, Option, none, List, [], ◌∷◌, some, ◌≡◌, refl, arith, ltb, ◌==◌, ◌*◌, ◌/◌,
  ◌%◌, ◌^◌,
}
use can_do.Core.Value.{CandoValue, number}
use can_do.Vm.Opcodes.{byte_of, op_throw, op_catch_begin}
use can_do.Vm.Chunk.{cando_chunk_new, cando_read_u16}
use can_do.Vm.Machine.{CandoVm, CandoClosure, cando_vm_init, write}
use can_do.Vm.Machine.Act.{
  Run, Host, ok, stopped, shifted, push, peek, pop, pop_n, read_u16, jump, top_frame, local_at,
  as_number, vm_is_truthy, vm_runtime_error, raise, close_from, vm_close_upvalues,
}
use can_do.Vm.Machine.Calls.{
  run_return, push_nulls, enter_frame, refuse, vm_call, move_values, values_at, return_to_thread,
  return_to_eval, returned_to, return_to_caller, return_from, leave,
}
use can_do.Vm.Machine.Functions.{load_frame, enter_function, call_function, call_value, run_call}
use can_do.Vm.Machine.Exec.{step, run, cando_vm_exec, read_byte, exec, recover, vm_run}
use can_do.Vm.Machine.Basics.{
  run_const, run_pop, run_pop_n, run_dup, run_load_local, run_store_local, run_def_local, run_not,
  run_jump, run_jump_if_false, run_jump_if_true, back_by, run_loop, run_load_vararg, run_spread_ret,
  run_array_spread, run_truncate_ret,
}
use can_do.Vm.Machine.Loops.{
  below_top, loop_mark, loop_end, is_outside, pop_to, pop_state, end_loop, leave_loop, loop_break,
  loop_continue, next_value, end_values, for_next,
}
use can_do.Vm.Machine.Instr.{IsInstr}
use can_do.Vm.Machine.Bounds.{Ends, IsBounded}
use can_do.Vm.Machine.Bounds.Steps.{cando_vm_exec-IsBounded}
use can_do.Vm.Machine.Tries.{
  handle_error, try_begin, try_end, push_param, push_params, clear_errors, catch_begin,
  finally_begin, pop_error, pop_errors, begin_throw, throw_count, throw_values, reraise,
  drop_frames, unwind_to, enter, unwind,
}
use can_do.Vm.Machine.Tries.Catch.{IsCaught, throw-IsCaught}
use can_do.Vm.Machine.Tries.Delivery.{Delivered, handle_error-Delivered}
use can_do.Vm.Machine.Tries.Stale.{return-leaves_block}

-- Doubles that stand for themselves, and empty messages.
abbrev host : Host
host = record {
  format = λ e vm. [];
  f64_lt = λ a b. ltb a b;
  f64_geq = λ a b. leb b a;
  f64_eq = λ a b. a == b;
  f64_zero = 0;
  f64_add = λ a b. a + b;
  f64_sub = λ a b. a - b;
  f64_mul = λ a b. a * b;
  f64_div = λ a b. a / b;
  fmod = λ a b. a % b;
  pow = λ a b. a ^ b;
  f64_dec = λ a. a - 1;
  f64_inc = λ a. a + 1;
  f64_trunc = λ a. a;
}

-- A try block that throws two constants, and a catch block with one parameter, which halts.
abbrev code : List ℕ
code = 88 ∷ 9 ∷ 0 ∷ 0 ∷ 0 ∷ 0 ∷ 0 ∷ 1 ∷ 0 ∷ 92 ∷ 2 ∷ 0 ∷ 90 ∷ 1 ∷ 0 ∷ 114 ∷ []

abbrev script : CandoClosure
script = record {
  chunk = record (cando_chunk_new 0 false) { code = code; code_len = 16; local_count = 1 };
  constants = number 7 ∷ number 8 ∷ [];
}

abbrev stopped_with : Run (Unit {0}) → Option (ℕ × CandoValue)
stopped_with (stopped r vm) = some (vm.stack_top, vm.stack (vm.stack_top - 1))
stopped_with _ = none

-- The first value that is thrown is the parameter.
script_halts : stopped_with (cando_vm_exec host 9 script cando_vm_init) ≡ some (2, number 7)
unfolding byte_of cando_read_u16 push peek pop pop_n read_u16 shifted jump top_frame local_at
    as_number vm_is_truthy vm_runtime_error raise close_from vm_close_upvalues run_const run_pop
    run_pop_n run_dup run_load_local run_store_local run_def_local run_not run_jump
    run_jump_if_false run_jump_if_true back_by run_loop run_load_vararg run_spread_ret
    run_array_spread run_truncate_ret push_nulls enter_frame refuse vm_call move_values values_at
    return_to_thread return_to_eval returned_to return_to_caller return_from leave run_return
    below_top loop_mark loop_end is_outside pop_to pop_state end_loop leave_loop loop_break
    loop_continue next_value end_values for_next try_begin try_end push_param push_params
    clear_errors catch_begin finally_begin pop_error pop_errors begin_throw throw_count throw_values
    reraise drop_frames unwind_to enter unwind handle_error read_byte exec recover step run vm_run
    cando_vm_exec
script_halts = refl

init-IsBounded : IsBounded cando_vm_init
init-IsBounded = ground arith

cando_vm_exec-IsBounded_example : Ends IsBounded (cando_vm_exec host 4 script cando_vm_init)
cando_vm_exec-IsBounded_example = cando_vm_exec-IsBounded host 4 script cando_vm_init init-IsBounded

-- Three values on the stack and a try block that saved the depth 1.
abbrev catching : List ℕ
catching = 92 ∷ 2 ∷ 0 ∷ 90 ∷ 3 ∷ 0 ∷ []

abbrev throwing : CandoVm
throwing = record cando_vm_init {
  ip = record { block = catching; offset = 0 };
  stack = write (write cando_vm_init.stack 1 (number 7)) 2 (number 8);
  stack_top = 3;
  frame_count = 1;
  try_stack = λ i. record {
    catch_ip = some (record { block = catching; offset = 3 });
    finally_ip = none;
    stack_save = 1;
    frame_save = 1;
    loop_save = 0;
  };
  try_depth = 1;
}

throw-IsInstr : IsInstr throwing.ip op_throw 2
unfolding byte_of cando_read_u16
throw-IsInstr = record { opcode = refl; operand_inside = omega arith; operand = refl }

catch-IsInstr : IsInstr (record { block = catching; offset = 3 }) op_catch_begin 3
unfolding byte_of cando_read_u16
catch-IsInstr = record { opcode = refl; operand_inside = omega arith; operand = refl }

throw-IsCaught_example :
    (next : CandoVm) × (run host 2 throwing ≡ ok tt next)
    × IsCaught 2 3 (throwing.try_stack 0) throwing next
throw-IsCaught_example =
    throw-IsCaught host throwing 2 3 0 (record { block = catching; offset = 3 }) throw-IsInstr
      (omega arith) (omega arith) (omega arith) refl refl (omega arith) (omega arith) catch-IsInstr
      (omega arith)

handle_error-Delivered_example : Delivered throwing (handle_error throwing)
handle_error-Delivered_example = handle_error-Delivered throwing (omega arith) (λ i l. omega arith)

-- A call that returns a value from inside its own try block.
abbrev returning : CandoVm
returning = record throwing {
  ip = record { block = 71 ∷ 1 ∷ 0 ∷ []; offset = 1 };
  frame_count = 2;
  try_stack = λ i. record {
    catch_ip = some (record { block = catching; offset = 3 });
    finally_ip = none;
    stack_save = 1;
    frame_save = 2;
    loop_save = 0;
  };
}

abbrev returned : CandoVm
returned = record returning {
  ip = record { block = []; offset = 0 };
  stack = write returning.stack 0 (returning.stack 2);
  stack_top = 1;
  frames =
      write returning.frames 1
        (record (returning.frames 1) { ip = record { block = 71 ∷ 1 ∷ 0 ∷ []; offset = 3 } });
  frame_count = 1;
  last_ret_count = 1;
}

returning_returns : run_return returning ≡ ok tt returned
unfolding run_return read_u16 top_frame leave vm_close_upvalues close_from return_from
    return_to_caller returned_to move_values cando_read_u16
returning_returns = refl

return-leaves_block_example :
    (caught : CandoVm) × (handle_error returned ≡ ok tt caught)
    × (caught.ip ≡ record { block = catching; offset = 3 })
    × (caught.frame_count ≡ 2 - 1)
return-leaves_block_example =
    return-leaves_block returning returned 0 (record { block = catching; offset = 3 })
      returning_returns refl refl refl

-- OP_CALL with one argument of the function at offset 5, which has a local besides.
abbrev calling : CandoVm
calling = record cando_vm_init {
  ip = record { block = 68 ∷ 1 ∷ 0 ∷ 114 ∷ 0 ∷ 114 ∷ []; offset = 1 };
  stack = write (write cando_vm_init.stack 1 (number 5)) 2 (number 8);
  stack_top = 3;
  frames = λ i. record (cando_vm_init.frames i) {
    closure = record {
      chunk = record (cando_chunk_new 0 false) {
        code = 68 ∷ 1 ∷ 0 ∷ 114 ∷ 0 ∷ 114 ∷ [];
        local_count = 3;
      };
      constants = [];
    };
  };
  frame_count = 1;
}

abbrev called : Run (Unit {0}) → Option (ℕ × ℕ × ℕ × ℕ)
called (ok a vm) =
    some (vm.frame_count, vm.ip.offset, (vm.frames 1).slots, vm.stack_top + (vm.frames 0).ip.offset)
called _ = none

calling_calls : called (run_call host calling) ≡ some (2, 5, 1, 4 + 3)
unfolding run_call read_u16 call_value top_frame call_function raise enter_function push_nulls push
    load_frame cando_read_u16
calling_calls = refl
