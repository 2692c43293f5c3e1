-- ===== src/Vm/Machine/Bounds/Returns.antt =====
-- source/vm/vm.c: calls and returns keep to the limits.
use can_do.Base.{
  ℕ, zero, suc, ◌+◌, ◌-◌, ◌≤◌, ◌<◌, ltb, leb, ◌==◌, true, false, not, ◌≡◌, ◌&&◌, arith, Bool,
  if◌then◌else◌, lt→ltb,
}
use can_do.Core.Value.{null}
use can_do.Vm.Machine.{CandoVm, CandoCallFrame, CandoClosure, cando_frames_max}
use can_do.Vm.Machine.Act.{
  Run, ok, out_of_bounds, new_entry, in_range, modify, Host, RuntimeError, wrong_arity,
  call_overflow, read_u16, top_frame, vm_runtime_error, vm_close_upvalues,
}
use can_do.Vm.Machine.Bounds.{
  IsBounded, Keeps, Keeps-bind, Ends-and_then, Ends, Ends-if, push-IsBounded,
}
use can_do.Vm.Machine.Calls.{
  push_nulls, enter_frame, refuse, vm_call, return_to_thread, return_to_eval, return_to_caller,
  return_from, leave, run_return,
}
use can_do.Vm.Chunk.{cando_read_u16}

pub push_nulls-IsBounded : (n : ℕ) → Keeps (push_nulls n)
unfolding push_nulls
push_nulls-IsBounded zero vm b = b
push_nulls-IsBounded (suc n) vm b =
    Keeps-bind _ _ (push-IsBounded null) (λ u. push_nulls-IsBounded n) vm b

return_from-IsBounded :
    (frame : CandoCallFrame) (n : ℕ)
    → frame.slots ≤ 2048
    → (frame.is_fluent ≡ true → frame.slots < 2048)
    → Keeps (return_from frame n)
unfolding return_from return_to_thread return_to_eval return_to_caller
return_from-IsBounded frame n l f vm b = ground arith

leave-IsBounded :
    (frame : CandoCallFrame) (n : ℕ) (vm : CandoVm)
    → frame.slots ≤ 2048
    → IsBounded vm
    → IsBounded (leave frame n vm)
unfolding leave vm_close_upvalues
leave-IsBounded frame n vm l b = ground arith

pub run_return-IsBounded : Keeps run_return
unfolding run_return read_u16 top_frame
run_return-IsBounded vm b = ground (
  arith,
  b.slots_fit (vm.frame_count - 1),
  leave-IsBounded (vm.frames (vm.frame_count - 1)) (cando_read_u16 vm.ip.block vm.ip.offset)
      (record vm { ip = record vm.ip { offset = vm.ip.offset + 2 } }),
)

enter_frame-IsBounded :
    (closure : CandoClosure) (arg_count : ℕ) (vm : CandoVm)
    → IsBounded vm
    → vm.frame_count < 256
    → IsBounded (enter_frame closure arg_count vm)
unfolding enter_frame
enter_frame-IsBounded closure arg_count vm b l = ground arith

refuse-IsBounded : (h : Host) (e : RuntimeError) → Keeps (refuse h e)
unfolding refuse vm_runtime_error
refuse-IsBounded h e vm b = ground arith

Ends-in_range :
    (c : Bool) (r : Run (Unit {0}))
    → Ends IsBounded r
    → Ends IsBounded (if c then r else out_of_bounds)
Ends-in_range true r p = p
Ends-in_range false r p = tt

-- A frame is entered where the test before it has found room.
entered-IsBounded :
    (closure : CandoClosure) (arg_count : ℕ) (vm : CandoVm)
    → IsBounded vm
    → vm.frame_count < 256
    → Ends IsBounded (
        new_entry
          (ltb vm.frame_count cando_frames_max)
          (in_range (ltb arg_count vm.stack_top) (modify (enter_frame closure arg_count)))
          vm)
entered-IsBounded closure arg_count vm b l = rw (lt→ltb vm.frame_count 256 l) (
    Ends-in_range (ltb arg_count vm.stack_top) (ok tt (enter_frame closure arg_count vm))
      (enter_frame-IsBounded closure arg_count vm b l))

pub vm_call-IsBounded :
    (h : Host) (closure : CandoClosure) (arg_count : ℕ) → Keeps (vm_call h closure arg_count)
unfolding vm_call
vm_call-IsBounded h closure arg_count vm b =
    Ends-if (not closure.chunk.has_vararg && not (arg_count == closure.chunk.arity)) _ _
      (refuse-IsBounded h (wrong_arity closure.chunk.arity arg_count) vm b)
      (λ fits.
        Ends-if (leb cando_frames_max vm.frame_count) _ _ (refuse-IsBounded h call_overflow vm b)
          (λ room.
            Ends-and_then _ _
              (Ends-and_then _ _ (entered-IsBounded closure arg_count vm b (ground (arith, room)))
                (λ u. push_nulls-IsBounded (closure.chunk.local_count - (arg_count + 1))))
              (λ u next c. c)))
