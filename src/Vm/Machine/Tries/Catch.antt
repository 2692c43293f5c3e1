-- ===== src/Vm/Machine/Tries/Catch.antt =====
-- source/vm/vm.c: a catch block takes over the thrown values.
use can_do.Base.{
  ℕ, suc, ◌+◌, ◌-◌, ◌≤◌, ◌<◌, ltb, min, if◌then◌else◌, false, some, ◌≡◌, refl, ap, ◌∙◌, arith,
  lt→ltb, le→ltb_false,
}
use can_do.Core.Value.{CandoValue, null}
use can_do.Vm.Opcodes.{op_throw, op_catch_begin}
use can_do.Vm.Machine.{CandoVm, CandoTryFrame, CodePtr}
use can_do.Vm.Machine.Act.{Run, Host, ok, ◌>>◌, and_then, modify}
use can_do.Vm.Machine.Tries.{param_value, push_params, clear_errors, catch_begin}
use can_do.Vm.Machine.Exec.{exec, recover, step, run}
use can_do.Vm.Machine.Tries.Parts.{
  pushed, push_params-pushed, pushed-IsPushed, pushed-stack, unwind_to-IsUnwound,
}
use can_do.Vm.Machine.Instr.{IsInstr, forward, step-IsOpcode, read_u16-IsInstr}
use can_do.Vm.Machine.Tries.Throw.{thrown, caught, thrown-IsThrown, step_thrown}

-- What holds once a catch block has taken over the values: `base` is the depth of the stack below them.
pub record IsCaught (n m : ℕ) (tf : CandoTryFrame) (vm next : CandoVm) : Type 0 where
  pub top : next.stack_top ≡ min tf.stack_save (vm.stack_top - n) + m
  pub below : (i : ℕ) → i < min tf.stack_save (vm.stack_top - n) → next.stack i ≡ vm.stack i
  pub params :
      (j : ℕ)
      → j < m
      → next.stack (next.stack_top - 1 - j)
        ≡ (if ltb j n then vm.stack (vm.stack_top - n + j) else null)
  pub frames : next.frame_count ≡ min tf.frame_save vm.frame_count
  pub loops : next.loop_depth ≡ tf.loop_save
  pub tries : next.try_depth ≡ vm.try_depth - 1
  pub no_error : next.has_error ≡ false
  pub no_values : next.error_val_count ≡ 0

-- The state behind OP_CATCH_BEGIN.
unfoldable bound : ℕ → CandoVm → CandoVm
unfolding pushed clear_errors
bound m vm = record (clear_errors (pushed m (record vm { ip = forward vm.ip 3 }))) {
  error_val_count = 0;
}

step_bound :
    (h : Host) (vm : CandoVm) (m : ℕ)
    → IsInstr vm.ip op_catch_begin m
    → vm.error_val_count ≤ 32
    → vm.stack_top + m ≤ 2048
    → step h vm ≡ ok tt (bound m vm)
unfolding exec recover bound catch_begin
step_bound h vm m i l r =
    step-IsOpcode h vm op_catch_begin i.opcode
    ∙ ap
        (λ (q : Run ℕ). recover (
          and_then q
            (λ c. push_params c >> modify (λ v. record (clear_errors v) { error_val_count = 0 }))))
        (read_u16-IsInstr vm op_catch_begin m i)
    ∙ ap
        (λ (q : Run (Unit {0})).
          recover (and_then q (λ u. modify (λ v. record (clear_errors v) { error_val_count = 0 }))))
        (push_params-pushed m (record vm { ip = forward vm.ip 3 }) l r)

-- What holds on entry to the catch block.
record IsEntered (n : ℕ) (tf : CandoTryFrame) (vm next : CandoVm) : Type 0 where
  stack_same : next.stack ≡ vm.stack
  top : next.stack_top ≡ min tf.stack_save (vm.stack_top - n)
  frames : next.frame_count ≡ min tf.frame_save vm.frame_count
  loops : next.loop_depth ≡ tf.loop_save
  tries : next.try_depth ≡ vm.try_depth - 1
  no_error : next.has_error ≡ false
  count : next.error_val_count ≡ n
  errors : (j : ℕ) → next.error_vals j ≡ (if ltb j n then vm.stack (vm.stack_top - n + j) else null)

caught-IsEntered :
    (n d : ℕ) (at : CodePtr) (vm : CandoVm)
    → n ≤ vm.stack_top
    → IsEntered n (vm.try_stack d) vm (caught n d at vm)
unfolding caught
caught-IsEntered n d at vm l =
    let t = thrown-IsThrown n vm in
    let u = unwind_to-IsUnwound ((thrown n vm).try_stack d) (thrown n vm) in
    let saves = ap (λ (g : ℕ → CandoTryFrame). (g d).stack_save) t.tries_same in
    let frames = ap (λ (g : ℕ → CandoTryFrame). (g d).frame_save) t.tries_same in
    record {
      stack_same = u.stack_same ∙ t.stack_same;
      top = omega (arith, u.top_back, t.top_down, saves);
      frames = omega (arith, u.frames_back, t.frames_same, frames);
      loops = u.loops_back ∙ ap (λ (g : ℕ → CandoTryFrame). (g d).loop_save) t.tries_same;
      tries = omega (arith, u.depth_down, t.depth_same);
      no_error = refl;
      count = u.count_same ∙ t.count_set;
      errors = λ j. ap (λ (g : ℕ → CandoValue). g j) u.errors_same ∙ t.errors_set j l;
    }

param_value_lem :
    (n j : ℕ) (vm next : CandoVm)
    → next.error_val_count ≡ n
    → next.error_vals j ≡ (if ltb j n then vm.stack (vm.stack_top - n + j) else null)
    → param_value next j ≡ (if ltb j n then vm.stack (vm.stack_top - n + j) else null)
param_value_lem n j vm next e q = ground arith

bound-IsCaught :
    (n m : ℕ) (tf : CandoTryFrame) (vm next : CandoVm)
    → IsEntered n tf vm next
    → IsCaught n m tf vm (bound m next)
unfolding bound clear_errors
bound-IsCaught n m tf vm next e =
    let g = record next { ip = forward next.ip 3 } in
    let p = pushed-IsPushed m g in
    record {
      top = omega (arith, p.top_up, e.top);
      below = λ i l.
          pushed-stack m g i (omega (arith, e.top))
          ∙ rw (lt→ltb i next.stack_top (omega (arith, e.top)))
              (ap (λ (f : ℕ → CandoValue). f i) e.stack_same);
      params = λ j l.
          let at = (pushed m g).stack_top - 1 - j in
          let c : next.stack_top + m - 1 - at ≡ j = omega (arith, p.top_up) in
          pushed-stack m g at (omega (arith, p.top_up))
          ∙ rw (le→ltb_false at next.stack_top (omega (arith, p.top_up)))
              (ap (param_value g) c ∙ param_value_lem n j vm g e.count (e.errors j));
      frames = p.frames_same ∙ e.frames;
      loops = p.loops_same ∙ e.loops;
      tries = p.tries_same ∙ e.tries;
      no_error = p.flag_same ∙ e.no_error;
      no_values = refl;
    }

-- OP_THROW with 1 to 32 values inside a try block, and then OP_CATCH_BEGIN with `m` parameters: the
-- innermost open block takes over. The stack is cut to the depth that the block saved and carries the
-- parameters above it, the first on top: parameter `j` is thrown value `j`, or null if fewer were thrown.
-- Frames, loops and try blocks go back to the block's, and no error is left.
pub throw-IsCaught :
    (h : Host) (vm : CandoVm) (n m d : ℕ) (at : CodePtr)
    → IsInstr vm.ip op_throw n
    → 0 < n
    → n ≤ 32
    → n ≤ vm.stack_top
    → vm.try_depth ≡ suc d
    → (vm.try_stack d).catch_ip ≡ some at
    → 0 < vm.frame_count
    → 0 < (vm.try_stack d).frame_save
    → IsInstr at op_catch_begin m
    → min (vm.try_stack d).stack_save (vm.stack_top - n) + m ≤ 2048
    → (next : CandoVm) × (run h 2 vm ≡ ok tt next) × IsCaught n m (vm.try_stack d) vm next
unfolding run caught
throw-IsCaught h vm n m d at i p l k e c f s j r =
    let entered = caught-IsEntered n d at vm k in
    (
      bound m (caught n d at vm),
      ap (λ (q : Run (Unit {0})). and_then q (λ u. step h >> run h 0))
            (step_thrown h vm n d at i p l k e c f s)
          ∙ ap (λ (q : Run (Unit {0})). and_then q (λ u. run h 0))
              (step_bound h (caught n d at vm) m j (omega (arith, entered.count))
                (omega (arith, entered.top))),
      bound-IsCaught n m (vm.try_stack d) vm (caught n d at vm) entered,
    )
