-- ===== src/Vm/Machine/Calls.antt =====
-- source/vm/vm.c: vm_call and the handler of OP_RETURN. Returned values that reach a stop frame are
-- handed to the code that started the run.
use can_do.Base.{
  ℕ, zero, suc, ◌+◌, ◌-◌, ◌==◌, ltb, leb, if◌then◌else◌, Bool, true, false, ◌&&◌, ◌||◌, not, List,
  [], ◌∷◌, Option, none, some, min,
}
use can_do.Core.Value.{CandoValue, null}
use can_do.Vm.Machine.{
  CandoVm, CandoCallFrame, CandoClosure, vm_halt, vm_eval_done, cando_frames_max, cando_stack_max,
  cando_max_throw_args, write,
}
use can_do.Vm.Machine.Act.{
  Act, Effect, Host, RuntimeError, wrong_arity, call_overflow, ok, stopped, ◌>>=◌, ◌>>◌, pure, gets,
  modify, in_range, new_entry, push, read_u16, top_frame, vm_runtime_error, vm_close_upvalues,
}

unfoldable pub push_nulls : ℕ → Effect
unfolding push
push_nulls zero = pure tt
push_nulls (suc n) = do push null; push_nulls n

unfoldable pub enter_frame : CandoClosure → ℕ → CandoVm → CandoVm
enter_frame closure arg_count vm = record vm {
  frames = write vm.frames vm.frame_count (record {
    closure = closure;
    ip = record { block = closure.chunk.code; offset = 0 };
    slots = vm.stack_top - arg_count - 1;
    ret_count = 0;
    is_fluent = false;
  });
  frame_count = vm.frame_count + 1;
}

unfoldable pub refuse : Host → RuntimeError → Act Bool
unfolding vm_runtime_error
refuse h e vm = ok false (vm_runtime_error h e vm)

-- False, with the error set, if the call is refused.
unfoldable pub vm_call : Host → CandoClosure → ℕ → Act Bool
unfolding push_nulls enter_frame refuse
vm_call h closure arg_count vm =
    if not closure.chunk.has_vararg && not (arg_count == closure.chunk.arity)
    then refuse h (wrong_arity closure.chunk.arity arg_count) vm
    else if leb cando_frames_max vm.frame_count
    then refuse h call_overflow vm
    else (new_entry (ltb vm.frame_count cando_frames_max)
            (in_range (ltb arg_count vm.stack_top) (modify (enter_frame closure arg_count)))
          >> push_nulls (closure.chunk.local_count - (arg_count + 1))
          >> pure true)
        vm

-- `n` values are copied to `dst` one after the other.
unfoldable pub move_values : ℕ → ℕ → ℕ → (ℕ → CandoValue) → ℕ → CandoValue
move_values zero src dst stack = stack
move_values (suc n) src dst stack = move_values n (src + 1) (dst + 1) (write stack dst (stack src))

-- The values from an address on.
unfoldable pub values_at : ℕ → ℕ → (ℕ → CandoValue) → List CandoValue
values_at zero at stack = []
values_at (suc n) at stack = stack at ∷ values_at n (at + 1) stack

abbrev pub stops_at : Option ℕ → ℕ → Bool
stops_at none count = false
stops_at (some stop) count = stop == count

-- The frame is popped. `last_ret_count` is the one of OP_RETURN, `frame` the frame that returns.
unfoldable pub return_to_thread : CandoCallFrame → ℕ → Effect
unfolding move_values
return_to_thread frame ret_count vm = stopped vm_eval_done (record vm {
  thread_results =
      if frame.is_fluent then write vm.thread_results 0 (vm.stack (frame.slots + 1)) else (λ i.
        if ltb i (min ret_count cando_max_throw_args)
        then vm.stack (vm.stack_top - ret_count + i)
        else vm.thread_results i);
  thread_result_count = if frame.is_fluent then 1 else min ret_count cando_max_throw_args;
  stack_top = frame.slots;
})

unfoldable pub return_to_eval : CandoCallFrame → ℕ → Effect
unfolding values_at
return_to_eval frame ret_count vm = stopped vm_eval_done (record vm {
  last_ret_count = ret_count;
  eval_results =
      if frame.is_fluent
      then vm.stack (frame.slots + 1) ∷ []
      else values_at ret_count (vm.stack_top - ret_count) vm.stack;
  stack_top = frame.slots;
})

unfoldable pub returned_to : CandoCallFrame → ℕ → CandoVm → CandoVm
unfolding move_values
returned_to frame ret_count vm = record vm {
  stack =
      if frame.is_fluent
      then write vm.stack frame.slots (vm.stack (frame.slots + 1))
      else move_values ret_count (vm.stack_top - ret_count) frame.slots vm.stack;
  stack_top = if frame.is_fluent then frame.slots + 1 else frame.slots + ret_count;
  last_ret_count = if frame.is_fluent then 1 else vm.last_ret_count;
  ip = (vm.frames (vm.frame_count - 1)).ip;
}

-- Results that are copied past the end of the stack overwrite the fields behind it: undefined.
unfoldable pub return_to_caller : CandoCallFrame → ℕ → Effect
unfolding returned_to
return_to_caller frame ret_count =
    in_range (frame.is_fluent || leb (frame.slots + ret_count) cando_stack_max)
      (modify (returned_to frame ret_count))

-- Where control goes once the frame is popped.
unfoldable pub return_from : CandoCallFrame → ℕ → Effect
unfolding return_to_thread return_to_eval return_to_caller
return_from frame ret_count vm =
    if stops_at vm.thread_stop_frame vm.frame_count
    then return_to_thread frame ret_count vm
    else if stops_at vm.eval_stop_frame vm.frame_count
    then return_to_eval frame ret_count vm
    else if vm.frame_count == 0
    then stopped vm_halt (record vm { stack_top = 0 })
    else return_to_caller frame ret_count vm

-- The body of OP_RETURN up to the frame's end: counts, SYNC_IP, upvalues, the frame popped.
unfoldable pub leave : CandoCallFrame → ℕ → CandoVm → CandoVm
unfolding vm_close_upvalues
leave frame ret_count vm =
    let synced = record vm {
      last_ret_count = if frame.is_fluent then vm.last_ret_count else ret_count;
      frames = write vm.frames (vm.frame_count - 1) (record frame { ip = vm.ip });
    } in
    record (vm_close_upvalues frame.slots synced) { frame_count = vm.frame_count - 1 }

unfoldable pub run_return : Effect
unfolding read_u16 top_frame leave return_from
run_return = do
  ret_count ← read_u16
  frame ← top_frame
  depth ← gets (λ vm. vm.stack_top)
  in_range (leb ret_count depth && (not frame.is_fluent || ltb (frame.slots + 1) cando_stack_max))
      (do modify (leave frame ret_count); return_from frame ret_count)
