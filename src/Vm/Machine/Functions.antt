-- ===== src/Vm/Machine/Functions.antt =====
-- source/vm/vm.c: OP_CALL of a function of the chunk that runs, which is a number, its place in the code.
-- A native function and a closure object are not modelled.
use can_do.Base.{ℕ, ◌+◌, ◌-◌, ◌%◌, ◌^◌, ltb, leb, if◌then◌else◌, false}
use can_do.Core.Value.{CandoValue, number}
use can_do.Vm.Machine.{CandoVm, CandoClosure, cando_frames_max, write}
use can_do.Vm.Machine.Act.{
  Effect, Host, call_overflow, not_callable, not_modelled, ◌>>=◌, ◌>>◌, gets, modify, in_range,
  new_entry, read_u16, top_frame, raise,
}
use can_do.Vm.Machine.Arith.{is_object}
use can_do.Vm.Machine.Calls.{push_nulls}

-- LOAD_FRAME
unfoldable pub load_frame : Effect
unfolding top_frame
load_frame = do frame ← top_frame; modify (λ vm. record vm { ip = frame.ip })

-- SYNC_IP and the new frame.
unfoldable pub enter_function : CandoClosure → ℕ → ℕ → CandoVm → CandoVm
enter_function closure pc arg_count vm =
    let caller = record (vm.frames (vm.frame_count - 1)) { ip = vm.ip } in
    record vm {
      frames = write (write vm.frames (vm.frame_count - 1) caller) vm.frame_count (record {
        closure = closure;
        ip = record { block = closure.chunk.code; offset = pc };
        slots = vm.stack_top - arg_count - 1;
        ret_count = 0;
        is_fluent = false;
      });
      frame_count = vm.frame_count + 1;
    }

unfoldable pub call_function : Host → CandoClosure → ℕ → ℕ → Effect
unfolding raise enter_function push_nulls load_frame
call_function h closure pc arg_count vm =
    if leb cando_frames_max vm.frame_count
    then raise h call_overflow vm
    else (new_entry (ltb vm.frame_count cando_frames_max)
            (modify (enter_function closure pc arg_count))
          >> push_nulls (closure.chunk.local_count - (arg_count + 1))
          >> load_frame)
        vm

-- The cast to u32 is undefined out of its range.
unfoldable pub call_value : Host → CandoValue → ℕ → Effect
unfolding top_frame call_function raise
call_value h (number bits) arg_count =
    if h.f64_lt bits h.f64_zero then (λ vm. not_modelled) else (do
      frame ← top_frame
      in_range (ltb (h.f64_trunc bits) (2 ^ 32))
          (call_function h frame.closure (h.f64_trunc bits) arg_count))
call_value h callee arg_count =
    if is_object callee then (λ vm. not_modelled) else raise h (not_callable callee)

-- The operand and what the arguments spread to, as an int; a negative sum counts as no argument.
abbrev pub spread_count : ℕ → CandoVm → ℕ
spread_count static_argc vm =
    let total = (static_argc + vm.spread_extra) % 2 ^ 32 in if ltb total (2 ^ 31) then total else 0

unfoldable pub run_call : Host → Effect
unfolding read_u16 call_value
run_call h = do
  static_argc ← read_u16
  arg_count ← gets (spread_count static_argc)
  modify (λ vm. record vm { spread_extra = 0 })
  depth ← gets (λ vm. vm.stack_top)
  in_range (ltb arg_count depth)
      (do callee ← gets (λ vm. vm.stack (depth - arg_count - 1)); call_value h callee arg_count)
