-- ===== src/Vm/Machine/Tries/Delivery.antt =====
-- source/vm/vm.c: where the unwinding of an error ends.
use can_do.Base.{
  ℕ, zero, suc, ◌<◌, false, Option, none, some, ◌≡◌, inl, inr, arith, Option-cases, Bool-cases,
  ◌==◌, ◌-◌,
}
use can_do.Vm.Machine.{CandoVm, CandoTryFrame, CodePtr, vm_runtime_err}
use can_do.Vm.Machine.Act.{Run, ok, stopped}
use can_do.Vm.Machine.Tries.{unwind_to, innermost, unwind, handle_error}
use can_do.Vm.Machine.Tries.Parts.{
  IsUnwound, unwind_to-IsUnwound, unwind_to-has_error, resumed-IsUnwound, enter_lem,
}

-- The place that handles an error in a try block: its catch, or else its finally.
abbrev pub handler : CandoTryFrame → Option CodePtr
handler tf = elim tf.catch_ip [ some at ↦ some at | none ↦ tf.finally_ip ]

handler_catch : (tf : CandoTryFrame) {at : CodePtr} → tf.catch_ip ≡ some at → handler tf ≡ some at
handler_catch tf c = rw c

handler_finally :
    (tf : CandoTryFrame) {o : Option CodePtr}
    → tf.catch_ip ≡ none
    → tf.finally_ip ≡ o
    → handler tf ≡ o
handler_finally tf c e = rw (c, e)

-- The machine runs on at the handler of a block, exactly at the depths that the block saved, or at those
-- of before where they were lower. A catch clears the error flag.
pub record IsResumed (tf : CandoTryFrame) (vm next : CandoVm) : Type 0 where
  pub target : handler tf ≡ some next.ip
  pub unwound : IsUnwound tf vm next
  pub flag : next.has_error ≡ elim tf.catch_ip [ some at ↦ false | none ↦ vm.has_error ]

-- How an error ends: at the handler of the innermost try block; or, if that has none, the way it ends once
-- the block is closed and the depths are cut to the block's; or, if no block is open, in an error of
-- vm_run.
pub data Delivered : CandoVm → Run (Unit {0}) → Type 0 where
  handled :
      {vm next : CandoVm}
      → 0 < vm.try_depth
      → IsResumed (innermost vm) vm next
      → Delivered vm (ok tt next)
  passed :
      {vm mid : CandoVm} {r : Run (Unit {0})}
      → 0 < vm.try_depth
      → handler (innermost vm) ≡ none
      → IsUnwound (innermost vm) vm mid
      → Delivered mid r
      → Delivered vm r
  unhandled : {vm : CandoVm} → vm.try_depth ≡ 0 → Delivered vm (stopped vm_runtime_err vm)

unwind-Delivered :
    (fuel : ℕ) (vm : CandoVm)
    → vm.try_depth < fuel
    → 0 < vm.frame_count
    → ((i : ℕ) → i < vm.try_depth → 0 < (vm.try_stack i).frame_save)
    → Delivered vm (unwind fuel vm)
unfolding unwind
unwind-Delivered zero vm l f s = absurd (omega arith)
unwind-Delivered (suc n) vm l f s =
    let tf = innermost vm in
    let u = unwind_to-IsUnwound tf vm in
    let next = unwind_to tf vm in
    elim (Bool-cases (vm.try_depth == 0)) [
      | inl e ↦ rw (unwind, e) (unhandled (ground (arith, e)))
      | inr e ↦
          let d : 0 < vm.try_depth = ground (arith, e) in
          let alive : 0 < next.frame_count =
            omega (arith, u.frames_back, s (vm.try_depth - 1) (omega arith)) in
          let rest =
            unwind-Delivered n next (omega (arith, u.depth_down)) alive
              (λ i j. rw u.blocks_same (s i (omega (arith, u.depth_down)))) in
          elim (Option-cases tf.catch_ip) [
            | inr (at, c) ↦
                rw (unwind, e, c, enter_lem at (record next { has_error = false }) alive)
                  (handled d (record {
                    target = handler_catch tf c;
                    unwound = resumed-IsUnwound tf vm next at false u;
                    flag = rw c;
                  }))
            | inl c ↦ (elim (Option-cases tf.finally_ip) [
              | inr (at, q) ↦
                  rw (unwind, e, c, q, enter_lem at next alive)
                    (handled d (record {
                      target = handler_finally tf c q;
                      unwound = resumed-IsUnwound tf vm next at next.has_error u;
                      flag = rw c (unwind_to-has_error tf vm);
                    }))
              | inl q ↦ rw (unwind, e, c, q) (passed d (handler_finally tf c q) u rest)
            ])
          ]
    ]

-- The unwinding of an error always ends. It ends at the handler of the innermost open try block that has
-- one, its catch or else its finally: with that block closed, its loop depth, and of the frames and of
-- the values as many as that block and the closed blocks inside it saved, or all there were where that
-- is fewer. If no open block has a handler it ends in an error of vm_run. The blocks have all been
-- opened in a frame.
pub handle_error-Delivered :
    (vm : CandoVm)
    → 0 < vm.frame_count
    → ((i : ℕ) → i < vm.try_depth → 0 < (vm.try_stack i).frame_save)
    → Delivered vm (handle_error vm)
unfolding handle_error
handle_error-Delivered vm f s = unwind-Delivered (suc vm.try_depth) vm (omega arith) f s
