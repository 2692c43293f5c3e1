-- ===== src/Vm/Machine/Bounds/Unwinding.antt =====
-- source/vm/vm.c: what throws and catches keeps to the limits, and so does the unwinding of an error.
use can_do.Base.{
  Bool-cases, inl, inr, ◌<◌, ◌==◌, ℕ, zero, suc, ◌-◌, ◌≤◌, ◌==◌, if◌then◌else◌, ◌≡◌, refl, ap,
  arith,
}
use can_do.Vm.Machine.{CandoVm, CandoTryFrame}
use can_do.Vm.Machine.Act.{Host, push, pop, read_u16, vm_runtime_error, vm_close_upvalues}
use can_do.Vm.Machine.Bounds.{Ends, IsBounded, Keeps, Keeps-bind, read_u16-IsBounded}
use can_do.Vm.Machine.Tries.{
  push_param, push_params, pop_error, begin_throw, throw_count, clear_errors, catch_begin,
  pop_errors, throw_values, reraise, drop_frames, unwind_to, enter, innermost, unwind, handle_error,
}

push_param-IsBounded : (i : ℕ) → Keeps (push_param i)
unfolding push_param push
push_param-IsBounded i vm b = ground arith

push_params-IsBounded : (n : ℕ) → Keeps (push_params n)
unfolding push_params
push_params-IsBounded zero vm b = b
push_params-IsBounded (suc i) vm b =
    Keeps-bind _ _ (push_param-IsBounded i) (λ u. push_params-IsBounded i) vm b

pub catch_begin-IsBounded : Keeps catch_begin
unfolding catch_begin clear_errors read_u16
catch_begin-IsBounded =
    Keeps-bind _ _ read_u16-IsBounded
      (λ n vm b. let p = push_params-IsBounded n vm b in ground arith)

pop_error-IsBounded : (i : ℕ) → Keeps (pop_error i)
unfolding pop_error pop
pop_error-IsBounded i vm b = ground arith

pop_errors-IsBounded : (n : ℕ) → Keeps (pop_errors n)
unfolding pop_errors
pop_errors-IsBounded zero vm b = b
pop_errors-IsBounded (suc i) vm b =
    Keeps-bind _ _ (pop_error-IsBounded i) (λ u. pop_errors-IsBounded i) vm b

begin_throw-IsBounded : (count : ℕ) (vm : CandoVm) → IsBounded vm → IsBounded (begin_throw count vm)
unfolding begin_throw clear_errors
begin_throw-IsBounded count vm b = ground arith

throw_count-IsBounded : (count : ℕ) → Keeps (throw_count count)
unfolding throw_count
throw_count-IsBounded count vm b =
    let p = pop_errors-IsBounded count (begin_throw count vm) (begin_throw-IsBounded count vm b) in
    ground arith

pub throw_values-IsBounded : Keeps throw_values
unfolding throw_values
throw_values-IsBounded =
    Keeps-bind _ _ read_u16-IsBounded (λ n. throw_count-IsBounded (if n == 0 then 1 else n))

pub reraise-IsBounded : (h : Host) → Keeps (reraise h)
unfolding reraise vm_runtime_error
reraise-IsBounded h vm b = ground arith

pub close-IsBounded :
    (last : ℕ) (vm : CandoVm) → IsBounded vm → IsBounded (vm_close_upvalues last vm)
unfolding vm_close_upvalues
close-IsBounded last vm b = ground arith

drop_frames-IsBounded : (n : ℕ) (vm : CandoVm) → IsBounded vm → IsBounded (drop_frames n vm)
unfolding drop_frames vm_close_upvalues
drop_frames-IsBounded zero vm b = b
drop_frames-IsBounded (suc n) vm b = drop_frames-IsBounded n _ (ground arith)

drop_frames-try_depth : (n : ℕ) (vm : CandoVm) → (drop_frames n vm).try_depth ≡ vm.try_depth
unfolding drop_frames vm_close_upvalues
drop_frames-try_depth zero vm = refl
drop_frames-try_depth (suc n) vm = drop_frames-try_depth n _

unwind_to-IsBounded :
    (tf : CandoTryFrame) (vm : CandoVm)
    → IsBounded vm
    → tf.loop_save ≤ 64
    → IsBounded (unwind_to tf vm)
unfolding unwind_to
unwind_to-IsBounded tf vm b l =
    let k = drop_frames-IsBounded (vm.frame_count - tf.frame_save) vm b in ground arith

unwind_to-try_depth :
    (tf : CandoTryFrame) (vm : CandoVm) → (unwind_to tf vm).try_depth ≡ vm.try_depth - 1
unfolding unwind_to
unwind_to-try_depth tf vm =
    ap (λ (n : ℕ). n - 1) (drop_frames-try_depth (vm.frame_count - tf.frame_save) vm)

unwind-IsBounded :
    (fuel : ℕ) (vm : CandoVm) → IsBounded vm → vm.try_depth < fuel → Ends IsBounded (unwind fuel vm)
unfolding unwind enter
unwind-IsBounded zero vm b l = absurd (omega arith)
unwind-IsBounded (suc n) vm b l = elim (Bool-cases (vm.try_depth == 0)) [
  | inl e ↦ rw (unwind, e) b
  | inr e ↦
      let some_open : 0 < vm.try_depth = ground (arith, e) in
      let m =
        unwind_to-IsBounded (innermost vm) vm b
          (b.saves_fit (vm.try_depth - 1) (omega arith)).loop_saved in
      let d = unwind_to-try_depth (innermost vm) vm in
      let r = unwind-IsBounded n (unwind_to (innermost vm) vm) m (omega arith) in ground (arith, e)
]

pub handle_error-IsBounded : Keeps handle_error
unfolding handle_error
handle_error-IsBounded vm b = unwind-IsBounded (suc vm.try_depth) vm b (omega arith)
