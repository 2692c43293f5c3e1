-- ===== src/Vm/Machine/Loops/Break.antt =====
-- source/vm/vm.c: a BREAK out of a FOR loop.
use can_do.Base.{ℕ, ◌+◌, ◌-◌, ◌≤◌, ◌<◌, ◌≡◌, ap, ◌∙◌, arith}
use can_do.Core.Value.{number}
use can_do.Vm.Opcodes.{op_break}
use can_do.Vm.Machine.{CandoVm, CandoLoopFrame}
use can_do.Vm.Machine.Act.{Host, ok, as_number}
use can_do.Vm.Machine.Loops.{pop_state, end_loop, leave_loop, loop_break}
use can_do.Vm.Machine.Exec.{exec, recover, step}
use can_do.Vm.Machine.Instr.{IsInstr, forward, step-IsOpcode, read_u16-IsInstr}
use can_do.Vm.Machine.Loops.State.{
  IsExact, IsIterating, set_top, pop_n_down, below_top-number, pop_to_down, is_outside_inside,
}

module _ (h : Host) (of : ℕ → ℕ) (exact : IsExact h of) where
  pop_state_for :
      (vm : CandoVm) (at index : ℕ)
      → index ≤ at
      → at ≤ 2048
      → vm.stack_top ≡ at + 2
      → vm.stack (at + 1) ≡ number (of index)
      → pop_state h 1 vm ≡ ok tt (record vm { stack_top = at - index })
  unfolding pop_state as_number
  pop_state_for vm at index l r e v =
      rw (below_top-number vm 0 (at + 1) (of index) (omega arith) v) (
        rw (pop_n_down 2 vm (omega arith), exact.trunc index (omega arith))
          (pop_n_down index (record vm { stack_top = vm.stack_top - 2 }) (omega arith)
            ∙ set_top vm (vm.stack_top - 2 - index) (at - index) (omega arith)))

  leave_loop_for :
      (frame : CandoLoopFrame) (idx base count index : ℕ) (vm : CandoVm)
      → frame.loop_type ≡ 1
      → frame.stack_save ≤ vm.stack_top
      → IsIterating of base count index vm.stack frame.stack_save
      → leave_loop h frame idx vm
        ≡ ok tt (record vm {
          stack_top = base + (count - index);
          spread_extra = 0;
          ip = frame.break_ip;
          loop_depth = idx;
        })
  unfolding leave_loop end_loop
  leave_loop_for frame idx base count index vm ty sv it =
      let marked = record vm { stack_top = frame.stack_save } in
      rw
        (
          pop_to_down frame.stack_save vm sv,
          ty,
          pop_state_for marked (base + count) index (omega (arith, it.within))
              (omega (arith, it.room, it.depth)) it.depth it.indexed,
        )
        (ap
          (λ (t : ℕ).
            ok tt (record vm {
              stack_top = t;
              spread_extra = 0;
              ip = frame.break_ip;
              loop_depth = idx;
            }))
          (omega (arith, it.within)))

  -- A BREAK out of a FOR loop goes to the end of the loop and closes the loops inside. On the stack it
  -- leaves as many of the loop's values as have not had their turn: it counts the values by the index,
  -- which is on top, and not by the number of values below it.
  pub loop_break_for :
      (vm : CandoVm) (base count index depth : ℕ)
      → IsInstr vm.ip op_break depth
      → depth < vm.loop_depth
      → (vm.loop_stack (vm.loop_depth - 1 - depth)).loop_type ≡ 1
      → (vm.loop_stack (vm.loop_depth - 1 - depth)).stack_save ≤ vm.stack_top
      → IsIterating of base count index vm.stack
          (vm.loop_stack (vm.loop_depth - 1 - depth)).stack_save
      → step h vm
        ≡ ok tt (record vm {
          stack_top = base + (count - index);
          spread_extra = 0;
          ip = (vm.loop_stack (vm.loop_depth - 1 - depth)).break_ip;
          loop_depth = vm.loop_depth - 1 - depth;
        })
  unfolding exec recover loop_break
  loop_break_for vm base count index depth i d ty sv it =
      let idx = vm.loop_depth - 1 - depth in
      step-IsOpcode h vm op_break i.opcode
      ∙ rw (read_u16-IsInstr vm op_break depth i, is_outside_inside depth vm.loop_depth d)
          (ap recover (
            leave_loop_for (vm.loop_stack idx) idx base count index
              (record vm { ip = forward vm.ip 3 }) ty sv it))
