-- ===== src/Vm/Machine/Bounds/Control.antt =====
-- source/vm/vm.c: the handlers of loops and of try blocks keep to the limits.
use can_do.Base.{ℕ, ◌-◌, ◌≤◌, ◌==◌, arith}
use can_do.Vm.Machine.{CandoLoopFrame}
use can_do.Vm.Machine.Act.{Host, break_outside, modify, push, read_u16, raise, vm_runtime_error}
use can_do.Vm.Machine.Loops.{
  below_top, loop_mark, loop_end, pop_to, pop_state, leave_loop, end_loop, end_values, loop_break,
  loop_continue, next_value, for_next,
}
use can_do.Vm.Machine.Tries.{try_begin, try_end, finally_begin}
use can_do.Vm.Machine.Bounds.{
  Keeps, Keeps-bind, pop_n-IsBounded, read_u16-IsBounded, jump-IsBounded, as_number-IsBounded,
  raise-IsBounded, if-IsBounded,
}

pub below_top-IsBounded : (dist : ℕ) → Keeps (below_top dist)
unfolding below_top
below_top-IsBounded dist vm b = ground arith

end_values-IsBounded : (h : Host) (count off : ℕ) → Keeps (end_values h count off)
unfolding end_values
end_values-IsBounded h count off =
    Keeps-bind _ _ (pop_n-IsBounded 2)
      (λ u. Keeps-bind _ _ (pop_n-IsBounded (h.f64_trunc count)) (λ v. jump-IsBounded off))

next_value-IsBounded : (h : Host) (count index : ℕ) → Keeps (next_value h count index)
unfolding next_value push
next_value-IsBounded h count index vm b = ground arith

pop_to-IsBounded : (save : ℕ) → Keeps (pop_to save)
unfolding pop_to
pop_to-IsBounded save vm b = pop_n-IsBounded (vm.stack_top - save) vm b

pop_state-IsBounded : (h : Host) (loop_type : ℕ) → Keeps (pop_state h loop_type)
unfolding pop_state
pop_state-IsBounded h loop_type = if-IsBounded (loop_type == 2) _ _ (pop_n-IsBounded 4) (
    if-IsBounded (loop_type == 1) _ _
      (Keeps-bind _ _ (below_top-IsBounded 0) (λ val.
        Keeps-bind _ _ (as_number-IsBounded val)
          (λ count. Keeps-bind _ _ (pop_n-IsBounded 2) (λ u. pop_n-IsBounded (h.f64_trunc count)))))
      (λ vm b. b))

pub loop_mark-IsBounded : Keeps loop_mark
unfolding loop_mark read_u16
loop_mark-IsBounded vm b = ground arith

pub try_begin-IsBounded : Keeps try_begin
unfolding try_begin read_u16
try_begin-IsBounded vm b = ground arith

pub loop_end-IsBounded : Keeps loop_end
unfolding loop_end
loop_end-IsBounded vm b = ground arith

pub loop_continue-IsBounded : (h : Host) → Keeps (loop_continue h)
unfolding loop_continue read_u16 raise vm_runtime_error
loop_continue-IsBounded h vm b = ground arith

pub try_end-IsBounded : Keeps try_end
unfolding try_end
try_end-IsBounded vm b = ground arith

pub finally_begin-IsBounded : Keeps finally_begin
unfolding finally_begin read_u16
finally_begin-IsBounded vm b = ground arith

pub for_next-IsBounded : (h : Host) → Keeps (for_next h)
unfolding for_next
for_next-IsBounded h = Keeps-bind _ _ read_u16-IsBounded (λ off.
    Keeps-bind _ _ (below_top-IsBounded 0) (λ top.
      Keeps-bind _ _ (as_number-IsBounded top) (λ index.
        Keeps-bind _ _ (below_top-IsBounded 1) (λ below.
          Keeps-bind _ _ (as_number-IsBounded below) (λ count.
            if-IsBounded (h.f64_geq index count) _ _ (end_values-IsBounded h count off)
              (next_value-IsBounded h count index))))))

end_loop-IsBounded :
    (frame : CandoLoopFrame) (idx : ℕ) → idx ≤ 64 → Keeps (modify (end_loop frame idx))
unfolding end_loop
end_loop-IsBounded frame idx l vm b = ground arith

leave_loop-IsBounded :
    (h : Host) (frame : CandoLoopFrame) (idx : ℕ) → idx ≤ 64 → Keeps (leave_loop h frame idx)
unfolding leave_loop
leave_loop-IsBounded h frame idx l = Keeps-bind _ _ (pop_to-IsBounded frame.stack_save) (λ u.
    Keeps-bind _ _ (pop_state-IsBounded h frame.loop_type) (λ v. end_loop-IsBounded frame idx l))

pub loop_break-IsBounded : (h : Host) → Keeps (loop_break h)
unfolding loop_break
loop_break-IsBounded h = Keeps-bind _ _ read_u16-IsBounded (λ depth vm b.
    let l =
      leave_loop-IsBounded h (vm.loop_stack (vm.loop_depth - 1 - depth)) (vm.loop_depth - 1 - depth)
        (omega (arith, b.loops_fit)) vm b in
    let r = raise-IsBounded h (break_outside depth vm.loop_depth) vm b in ground arith)
