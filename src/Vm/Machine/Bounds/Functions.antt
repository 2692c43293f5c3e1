-- ===== src/Vm/Machine/Bounds/Functions.antt =====
-- source/vm/vm.c: OP_CALL keeps to the limits.
use can_do.Base.{ℕ, ◌+◌, ◌-◌, ◌^◌, ◌<◌, ltb, leb, arith, lt→ltb}
use can_do.Core.Value.{CandoValue, null, bool, number, string, object}
use can_do.Vm.Machine.{CandoVm, CandoClosure, cando_frames_max}
use can_do.Vm.Machine.Act.{Host, call_overflow, not_callable, modify, new_entry}
use can_do.Vm.Machine.Functions.{
  load_frame, enter_function, call_function, call_value, spread_count, run_call,
}
use can_do.Vm.Machine.Bounds.{
  Ends, IsBounded, Keeps, Keeps-bind, Ends-and_then, Ends-if, in_range-IsBounded,
  read_u16-IsBounded, top_frame-IsBounded, raise-IsBounded, if-IsBounded,
}
use can_do.Vm.Machine.Bounds.Returns.{push_nulls-IsBounded}

pub load_frame-IsBounded : Keeps load_frame
unfolding load_frame
load_frame-IsBounded = Keeps-bind _ _ top_frame-IsBounded (λ frame vm b. ground arith)

enter_function-IsBounded :
    (closure : CandoClosure) (pc arg_count : ℕ) (vm : CandoVm)
    → IsBounded vm
    → vm.frame_count < 256
    → Ends IsBounded (
        new_entry
          (ltb vm.frame_count cando_frames_max)
          (modify (enter_function closure pc arg_count))
          vm)
unfolding enter_function
enter_function-IsBounded closure pc arg_count vm b l =
    rw (lt→ltb vm.frame_count 256 l) (ground (arith, l, b.slots_fit (vm.frame_count - 1)))

call_function-IsBounded :
    (h : Host) (closure : CandoClosure) (pc arg_count : ℕ)
    → Keeps (call_function h closure pc arg_count)
unfolding call_function
call_function-IsBounded h closure pc arg_count vm b =
    Ends-if (leb cando_frames_max vm.frame_count) _ _ (raise-IsBounded h call_overflow vm b)
      (λ room.
        Ends-and_then _ _
          (Ends-and_then _ _
            (enter_function-IsBounded closure pc arg_count vm b (ground (arith, room)))
            (λ u. push_nulls-IsBounded (closure.chunk.local_count - (arg_count + 1))))
          (λ u. load_frame-IsBounded))

call_value-IsBounded : (h : Host) (callee : CandoValue) (n : ℕ) → Keeps (call_value h callee n)
unfolding call_value
call_value-IsBounded h (number bits) n =
    if-IsBounded (h.f64_lt bits h.f64_zero) _ _ (λ vm b. tt)
      (Keeps-bind _ _ top_frame-IsBounded (λ frame.
        in_range-IsBounded (ltb (h.f64_trunc bits) (2 ^ 32)) _
          (call_function-IsBounded h frame.closure (h.f64_trunc bits) n)))
call_value-IsBounded h null n = raise-IsBounded h (not_callable null)
call_value-IsBounded h (bool c) n = raise-IsBounded h (not_callable (bool c))
call_value-IsBounded h (string s) n = raise-IsBounded h (not_callable (string s))
call_value-IsBounded h (object o) n = λ vm b. tt

pub run_call-IsBounded : (h : Host) → Keeps (run_call h)
unfolding run_call
run_call-IsBounded h = Keeps-bind _ _ read_u16-IsBounded (λ static_argc vm b.
    in_range-IsBounded (ltb (spread_count static_argc vm) vm.stack_top) _
      (call_value-IsBounded h (vm.stack (vm.stack_top - spread_count static_argc vm - 1))
        (spread_count static_argc vm))
      (record vm { spread_extra = 0 }) (ground arith))
