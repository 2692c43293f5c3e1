-- ===== src/Vm/Machine/Tries/Throw.antt =====
-- source/vm/vm.c: a thrown error on its way to the catch.
use can_do.Base.{
  ℕ, suc, ◌+◌, ◌-◌, ◌≤◌, ◌<◌, ◌==◌, ltb, if◌then◌else◌, true, false, some, ◌≡◌, ap, ◌∙◌, arith,
}
use can_do.Core.Value.{null}
use can_do.Vm.Opcodes.{op_throw}
use can_do.Vm.Machine.{CandoVm, CandoTryFrame, CodePtr}
use can_do.Vm.Machine.Act.{Run, Host, ok, raised, and_then}
use can_do.Vm.Machine.Tries.{
  clear_errors, begin_throw, throw_count, throw_values, unwind_to, innermost, unwind, handle_error,
}
use can_do.Vm.Machine.Exec.{exec, recover, step}
use can_do.Vm.Machine.Tries.Parts.{
  popped, pop_errors-popped, popped-IsPopped, popped-error_vals, unwind_to-IsUnwound, enter_lem,
}
use can_do.Vm.Machine.Instr.{IsInstr, forward, step-IsOpcode, read_u16-IsInstr}

-- The state in which OP_THROW with `n` values goes to the unwinding.
unfoldable pub thrown : ℕ → CandoVm → CandoVm
unfolding popped begin_throw
thrown n vm = record (popped n (begin_throw n (record vm { ip = forward vm.ip 3 }))) {
  has_error = true;
}

at_least_one : (n : ℕ) → 0 < n → (if n == 0 then 1 else n) ≡ n
at_least_one n p = ground arith

-- OP_THROW with a count that fits, up to `goto handle_error`.
throw_values-thrown :
    (vm : CandoVm) (n : ℕ)
    → IsInstr vm.ip op_throw n
    → 0 < n
    → n ≤ 32
    → n ≤ vm.stack_top
    → throw_values (record vm { ip = forward vm.ip 1 }) ≡ raised (thrown n vm)
unfolding throw_values throw_count begin_throw clear_errors thrown
throw_values-thrown vm n i p l m =
    let next = record vm { ip = forward vm.ip 3 } in
    ap (λ (r : Run ℕ). and_then r (λ c. throw_count (if c == 0 then 1 else c)))
      (read_u16-IsInstr vm op_throw n i)
    ∙ ap (λ (c : ℕ). throw_count c next) (at_least_one n p)
    ∙ ap (λ (r : Run (Unit {0})). and_then r (λ u v. raised (record v { has_error = true })))
        (pop_errors-popped n (begin_throw n next) l m)

unwind-caught :
    (vm : CandoVm) (fuel : ℕ) (at : CodePtr)
    → 0 < vm.try_depth
    → (innermost vm).catch_ip ≡ some at
    → 0 < vm.frame_count
    → 0 < (innermost vm).frame_save
    → unwind (suc fuel) vm
      ≡ ok tt (record (unwind_to (innermost vm) vm) { ip = at; has_error = false })
unfolding unwind
unwind-caught vm fuel at d c f s =
    let u = unwind_to-IsUnwound (innermost vm) vm in
    let open_one : (vm.try_depth == 0) ≡ false = ground (arith, d) in
    rw (unwind, open_one, c)
      (enter_lem at (record (unwind_to (innermost vm) vm) { has_error = false })
        (omega (arith, u.frames_back)))

-- An error that is raised inside a try block enters the block's catch: the innermost one, with the depths
-- that the block saved.
pub handle_error_caught :
    (vm : CandoVm) (d : ℕ) (at : CodePtr)
    → vm.try_depth ≡ suc d
    → (vm.try_stack d).catch_ip ≡ some at
    → 0 < vm.frame_count
    → 0 < (vm.try_stack d).frame_save
    → handle_error vm
      ≡ ok tt (record (unwind_to (vm.try_stack d) vm) { ip = at; has_error = false })
unfolding handle_error
handle_error_caught vm d at e c f s =
    let tf : innermost vm ≡ vm.try_stack d = ap vm.try_stack (omega arith) in
    unwind-caught vm vm.try_depth at (omega arith) (rw tf c) f (rw tf s)
    ∙ ap (λ (t : CandoTryFrame). ok tt (record (unwind_to t vm) { ip = at; has_error = false })) tf

-- The state in which the catch block is entered.
unfoldable pub caught : ℕ → ℕ → CodePtr → CandoVm → CandoVm
unfolding thrown unwind_to
caught n d at vm = record (unwind_to ((thrown n vm).try_stack d) (thrown n vm)) {
  ip = at;
  has_error = false;
}

pub record IsThrown (n : ℕ) (vm next : CandoVm) : Type 0 where
  pub stack_same : next.stack ≡ vm.stack
  pub top_down : next.stack_top ≡ vm.stack_top - n
  pub frames_same : next.frame_count ≡ vm.frame_count
  pub tries_same : next.try_stack ≡ vm.try_stack
  pub depth_same : next.try_depth ≡ vm.try_depth
  pub count_set : next.error_val_count ≡ n
  pub errors_set :
      (j : ℕ)
      → n ≤ vm.stack_top
      → next.error_vals j ≡ (if ltb j n then vm.stack (vm.stack_top - n + j) else null)

pub thrown-IsThrown : (n : ℕ) (vm : CandoVm) → IsThrown n vm (thrown n vm)
unfolding thrown begin_throw clear_errors
thrown-IsThrown n vm =
    let b = begin_throw n (record vm { ip = forward vm.ip 3 }) in
    let p = popped-IsPopped n b in
    record {
      stack_same = p.stack_same;
      top_down = p.top_down;
      frames_same = p.frames_same;
      tries_same = p.tries_same;
      depth_same = p.depth_same;
      count_set = p.count_same;
      errors_set = λ j l. popped-error_vals n b j l;
    }

pub step_thrown :
    (h : Host) (vm : CandoVm) (n d : ℕ) (at : CodePtr)
    → IsInstr vm.ip op_throw n
    → 0 < n
    → n ≤ 32
    → n ≤ vm.stack_top
    → vm.try_depth ≡ suc d
    → (vm.try_stack d).catch_ip ≡ some at
    → 0 < vm.frame_count
    → 0 < (vm.try_stack d).frame_save
    → step h vm ≡ ok tt (caught n d at vm)
unfolding exec recover caught
step_thrown h vm n d at i p l m e c f s =
    let t = thrown-IsThrown n vm in
    step-IsOpcode h vm op_throw i.opcode
    ∙ ap recover (throw_values-thrown vm n i p l m)
    ∙ handle_error_caught (thrown n vm) d at (t.depth_same ∙ e)
        (ap (λ (g : ℕ → CandoTryFrame). (g d).catch_ip) t.tries_same ∙ c)
        (omega (arith, t.frames_same)) (rw t.tries_same s)
