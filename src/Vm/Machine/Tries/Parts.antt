-- ===== src/Vm/Machine/Tries/Parts.antt =====
-- source/vm/vm.c: the loops of OP_THROW, of OP_CATCH_BEGIN and of the unwinding, each as one change of
-- the state.
use can_do.Base.{
  ℕ, zero, suc, ◌+◌, ◌-◌, ◌≤◌, ◌<◌, ◌==◌, ltb, min, if◌then◌else◌, ◌≡◌, refl, ap, arith, Bool,
  Bool-cases, inl, inr, lt→ltb, ==_iff,
}
use can_do.Vm.Machine.{CandoVm, CandoTryFrame, CodePtr, write}
use can_do.Vm.Machine.Act.{ok, push, pop, vm_close_upvalues}
use can_do.Vm.Machine.Tries.{
  param_value, push_param, push_params, pop_error, pop_errors, drop_frames, unwind_to, enter,
}

-- The state once `n` values are popped into `error_vals`.
unfoldable pub popped : ℕ → CandoVm → CandoVm
popped zero vm = vm
popped (suc i) vm = popped i (record vm {
  stack_top = vm.stack_top - 1;
  error_vals = write vm.error_vals i (vm.stack (vm.stack_top - 1));
})

pub pop_errors-popped :
    (n : ℕ) (vm : CandoVm) → n ≤ 32 → n ≤ vm.stack_top → pop_errors n vm ≡ ok tt (popped n vm)
unfolding pop_errors pop_error pop popped
pop_errors-popped zero vm l m = refl
pop_errors-popped (suc i) vm l m =
    rw (lt→ltb 0 vm.stack_top (omega arith), lt→ltb i 32 (omega arith))
      (pop_errors-popped i _ (omega arith) (omega arith))

pub record IsPopped (n : ℕ) (vm next : CandoVm) : Type 0 where
  pub stack_same : next.stack ≡ vm.stack
  pub top_down : next.stack_top ≡ vm.stack_top - n
  pub frames_same : next.frame_count ≡ vm.frame_count
  pub tries_same : next.try_stack ≡ vm.try_stack
  pub depth_same : next.try_depth ≡ vm.try_depth
  pub count_same : next.error_val_count ≡ vm.error_val_count

pub popped-IsPopped : (n : ℕ) (vm : CandoVm) → IsPopped n vm (popped n vm)
unfolding popped
popped-IsPopped zero vm = ground arith
popped-IsPopped (suc i) vm =
    let p = popped-IsPopped i (record vm {
      stack_top = vm.stack_top - 1;
      error_vals = write vm.error_vals i (vm.stack (vm.stack_top - 1));
    }) in
    ground arith

pub popped-error_vals :
    (n : ℕ) (vm : CandoVm) (j : ℕ)
    → n ≤ vm.stack_top
    → (popped n vm).error_vals j
      ≡ (if ltb j n then vm.stack (vm.stack_top - n + j) else vm.error_vals j)
unfolding popped
popped-error_vals zero vm j l = ground arith
popped-error_vals (suc i) vm j l =
    let p =
      popped-error_vals i
        (record vm {
          stack_top = vm.stack_top - 1;
          error_vals = write vm.error_vals i (vm.stack (vm.stack_top - 1));
        })
        j (omega arith) in
    let e : vm.stack_top - 1 - i + j ≡ vm.stack_top - suc i + j = omega arith in
    let c = ap vm.stack e in ground arith

unfoldable pub pushed_one : ℕ → CandoVm → CandoVm
pushed_one i vm = record vm {
  stack = write vm.stack vm.stack_top (param_value vm i);
  stack_top = vm.stack_top + 1;
}

-- The state once the parameters are pushed.
unfoldable pub pushed : ℕ → CandoVm → CandoVm
unfolding pushed_one
pushed zero vm = vm
pushed (suc i) vm = pushed i (pushed_one i vm)

-- One parameter is pushed.
push_param-pushed :
    (i : ℕ) (vm : CandoVm)
    → vm.error_val_count ≤ 32
    → vm.stack_top < 2048
    → push_param i vm ≡ ok tt (pushed_one i vm)
unfolding push_param push pushed_one
push_param-pushed i vm l r = ground arith

pub push_params-pushed :
    (m : ℕ) (vm : CandoVm)
    → vm.error_val_count ≤ 32
    → vm.stack_top + m ≤ 2048
    → push_params m vm ≡ ok tt (pushed m vm)
unfolding push_params pushed
push_params-pushed zero vm l r = refl
push_params-pushed (suc i) vm l r =
    rw (push_param-pushed i vm l (omega arith))
      (push_params-pushed i (pushed_one i vm) (ground arith) (ground arith))

pub record IsPushed (m : ℕ) (vm next : CandoVm) : Type 0 where
  pub top_up : next.stack_top ≡ vm.stack_top + m
  pub frames_same : next.frame_count ≡ vm.frame_count
  pub tries_same : next.try_depth ≡ vm.try_depth
  pub loops_same : next.loop_depth ≡ vm.loop_depth
  pub flag_same : next.has_error ≡ vm.has_error

pub pushed-IsPushed : (m : ℕ) (vm : CandoVm) → IsPushed m vm (pushed m vm)
unfolding pushed
pushed-IsPushed zero vm = ground arith
pushed-IsPushed (suc i) vm = let p = pushed-IsPushed i (pushed_one i vm) in ground arith

pub pushed-stack :
    (m : ℕ) (vm : CandoVm) (j : ℕ)
    → j < vm.stack_top + m
    → (pushed m vm).stack j
      ≡ (if ltb j vm.stack_top then vm.stack j else param_value vm (vm.stack_top + m - 1 - j))
unfolding pushed
pushed-stack zero vm j l = ground arith
pushed-stack (suc i) vm j l =
    let p = pushed-stack i (pushed_one i vm) j (ground arith) in
    let c = λ (a b : ℕ) (e : a ≡ b). ap (param_value vm) e in
    let above = c (vm.stack_top + 1 + i - 1 - j) (vm.stack_top + suc i - 1 - j) (omega arith) in
    elim (Bool-cases (j == vm.stack_top)) [
      | inl e ↦
          let q = (==_iff j vm.stack_top).0 e in
          let here = c i (vm.stack_top + suc i - 1 - j) (omega arith) in ground arith
      | inr e ↦ ground arith
    ]

record IsDropped (n : ℕ) (vm next : CandoVm) : Type 0 where
  pub stack_same : next.stack ≡ vm.stack
  top_same : next.stack_top ≡ vm.stack_top
  frames_down : next.frame_count ≡ vm.frame_count - n
  pub depth_same : next.try_depth ≡ vm.try_depth
  pub errors_same : next.error_vals ≡ vm.error_vals
  pub blocks_same : next.try_stack ≡ vm.try_stack
  pub flag_same : next.has_error ≡ vm.has_error
  pub count_same : next.error_val_count ≡ vm.error_val_count

drop_frames-IsDropped : (n : ℕ) (vm : CandoVm) → IsDropped n vm (drop_frames n vm)
unfolding drop_frames vm_close_upvalues
drop_frames-IsDropped zero vm = ground arith
drop_frames-IsDropped (suc n) vm =
    let next = vm_close_upvalues (vm.frames (vm.frame_count - 1)).slots vm in
    let d = drop_frames-IsDropped n (record next { frame_count = vm.frame_count - 1 }) in
    ground arith

-- The depths are cut to those that the try frame saved, and the block is closed.
pub record IsUnwound (tf : CandoTryFrame) (vm next : CandoVm) : Type 0 where
  pub stack_same : next.stack ≡ vm.stack
  pub top_back : next.stack_top ≡ min tf.stack_save vm.stack_top
  pub frames_back : next.frame_count ≡ min tf.frame_save vm.frame_count
  pub depth_down : next.try_depth ≡ vm.try_depth - 1
  pub loops_back : next.loop_depth ≡ tf.loop_save
  pub errors_same : next.error_vals ≡ vm.error_vals
  pub blocks_same : next.try_stack ≡ vm.try_stack
  pub count_same : next.error_val_count ≡ vm.error_val_count

pub unwind_to-IsUnwound : (tf : CandoTryFrame) (vm : CandoVm) → IsUnwound tf vm (unwind_to tf vm)
unfolding unwind_to
unwind_to-IsUnwound tf vm =
    let d = drop_frames-IsDropped (vm.frame_count - tf.frame_save) vm in ground arith

pub unwind_to-has_error :
    (tf : CandoTryFrame) (vm : CandoVm) → (unwind_to tf vm).has_error ≡ vm.has_error
unfolding unwind_to
unwind_to-has_error tf vm =
    let d = drop_frames-IsDropped (vm.frame_count - tf.frame_save) vm in d.flag_same

-- The handler is entered, with another error flag.
pub resumed-IsUnwound :
    (tf : CandoTryFrame) (vm next : CandoVm) (at : CodePtr) (flag : Bool)
    → IsUnwound tf vm next
    → IsUnwound tf vm (record next { ip = at; has_error = flag })
resumed-IsUnwound tf vm next at flag u = record {
  stack_same = u.stack_same;
  top_back = u.top_back;
  frames_back = u.frames_back;
  depth_down = u.depth_down;
  loops_back = u.loops_back;
  errors_same = u.errors_same;
  blocks_same = u.blocks_same;
  count_same = u.count_same;
}

pub enter_lem :
    (at : CodePtr) (vm : CandoVm) → 0 < vm.frame_count → enter at vm ≡ ok tt (record vm { ip = at })
unfolding enter
enter_lem at vm l = ground arith
