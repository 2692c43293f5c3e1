-- ===== src/Vm/Machine/Loops/Iteration.antt =====
-- source/vm/vm.c: a FOR loop over the values on the stack, turn by turn.
use can_do.Base.{
  ℕ, suc, ◌+◌, ◌-◌, ◌≤◌, ◌<◌, ltb, some, ◌≡◌, refl, ap, ◌∙◌, arith, Bool-cases, inl, inr, lt→ltb,
  le→leb, lt→leb_false, ltb→lt,
}
use can_do.Core.Value.{number}
use can_do.Vm.Opcodes.{op_for_next}
use can_do.Vm.Machine.{CandoVm, CodePtr, write}
use can_do.Vm.Machine.Act.{Host, ok, push, jump, shifted, as_number}
use can_do.Vm.Machine.Loops.{end_values, next_value, for_next}
use can_do.Vm.Machine.Exec.{exec, recover, step}
use can_do.Vm.Machine.Instr.{IsInstr, forward, step-IsOpcode, read_u16-IsInstr}
use can_do.Vm.Machine.Loops.State.{IsExact, IsIterating, pop_n_down, below_top-number}

-- One turn of OP_FOR_NEXT: the value at the index is on top and the index is one more, the loop's own
-- state being below it, or all values had their turn, and they and the state are gone.
pub data Turn (of : ℕ → ℕ) (base count index : ℕ) (target : CodePtr) (vm next : CandoVm)
    : Type 0 where
  value :
      index < count
      → next.ip ≡ forward vm.ip 3
      → next.stack_top ≡ vm.stack_top + 1
      → next.stack vm.stack_top ≡ vm.stack (base + index)
      → ((i : ℕ) → i < vm.stack_top - 1 → next.stack i ≡ vm.stack i)
      → IsIterating of base count (suc index) next.stack vm.stack_top
      → Turn of base count index target vm next
  over :
      index ≡ count
      → next.ip ≡ target
      → next.stack_top ≡ base
      → next.stack ≡ vm.stack
      → Turn of base count index target vm next

module _ (h : Host) (of : ℕ → ℕ) (exact : IsExact h of) where
  -- The state once the next value is on top.
  unfoldable advanced : ℕ → ℕ → CandoVm → CandoVm
  advanced base index vm = record vm {
    ip = forward vm.ip 3;
    stack =
        write (write vm.stack (vm.stack_top - 1) (number (of (index + 1)))) vm.stack_top
          (write vm.stack (vm.stack_top - 1) (number (of (index + 1))) (base + index));
    stack_top = vm.stack_top + 1;
  }

  next_value-advanced :
      (vm : CandoVm) (base count index : ℕ)
      → IsIterating of base count index vm.stack vm.stack_top
      → index < count
      → next_value h (of count) (of index) (record vm { ip = forward vm.ip 3 })
        ≡ ok tt (advanced base index vm)
  unfolding next_value push advanced
  next_value-advanced vm base count index it l =
      let c = exact.trunc count (omega (arith, it.depth, it.room)) in
      let x = exact.trunc index (omega (arith, it.depth, it.room)) in
      let n = exact.inc index (omega (arith, it.depth, it.room)) in
      let at : vm.stack_top + index - 2 - count ≡ base + index = omega (arith, it.depth) in
      rw (
        c,
        x,
        n,
        at,
        le→leb (2 + count) (vm.stack_top + index) (omega (arith, it.depth)),
        lt→ltb (base + index) 2048 (omega (arith, it.depth, it.room)),
        lt→ltb vm.stack_top 2048 it.room,
      )

  advanced-Turn :
      (vm : CandoVm) (base count index : ℕ) (target : CodePtr)
      → IsIterating of base count index vm.stack vm.stack_top
      → index < count
      → Turn of base count index target vm (advanced base index vm)
  unfolding advanced
  advanced-Turn vm base count index target it l =
      let last : vm.stack_top - 1 ≡ base + count + 1 = omega (arith, it.depth) in
      value l refl refl (ground (arith, it.depth)) (λ i j. ground arith)
        (record {
          depth = it.depth;
          room = it.room;
          counted = ground (arith, it.depth, it.counted);
          indexed = ground (arith, it.depth);
          within = l;
        })

  -- OP_FOR_NEXT while the loop is over.
  exhausted :
      (vm : CandoVm) (base count : ℕ) (target : CodePtr) (off : ℕ)
      → shifted (forward vm.ip 3) off ≡ some target
      → vm.stack_top ≡ base + count + 2
      → count ≤ 2048
      → end_values h (of count) off (record vm { ip = forward vm.ip 3 })
        ≡ ok tt (record vm { ip = target; stack_top = base })
  unfolding end_values jump
  exhausted vm base count target off t e r =
      let next = record vm { ip = forward vm.ip 3 } in
      rw
        (
          pop_n_down 2 next (omega arith),
          exact.trunc count (omega arith),
          pop_n_down count (record next { stack_top = vm.stack_top - 2 }) (omega arith),
          t,
        )
        (ap (λ (n : ℕ). ok tt (record vm { ip = target; stack_top = n })) (omega arith))

  -- One turn of a FOR loop: OP_FOR_NEXT pushes the next value and moves the index on, or, when every value
  -- had its turn, takes the values and the loop's state off the stack and goes to the end of the loop.
  pub for_next-Turn :
      (vm : CandoVm) (base count index off : ℕ) (target : CodePtr)
      → IsInstr vm.ip op_for_next off
      → shifted (forward vm.ip 3) off ≡ some target
      → IsIterating of base count index vm.stack vm.stack_top
      → (next : CandoVm) × (step h vm ≡ ok tt next) × Turn of base count index target vm next
  unfolding exec recover for_next as_number
  for_next-Turn vm base count index off target i t it =
      let next = record vm { ip = forward vm.ip 3 } in
      let state = step-IsOpcode h vm op_for_next i.opcode in
      let q =
        exact.geq index count (omega (arith, it.depth, it.room, it.within))
          (omega (arith, it.depth, it.room)) in
      elim (Bool-cases (ltb index count)) [
        | inl l ↦ (
          advanced base index vm,
          state
              ∙ rw
                  (
                    read_u16-IsInstr vm op_for_next off i,
                    below_top-number next 0 (base + count + 1) (of index) (omega (arith, it.depth))
                        it.indexed,
                    below_top-number next 1 (base + count) (of count) (omega (arith, it.depth))
                        it.counted,
                    q,
                    lt→leb_false count index (ltb→lt index count l),
                  )
                  (ap recover (next_value-advanced vm base count index it (ltb→lt index count l))),
          advanced-Turn vm base count index target it (ltb→lt index count l),
        )
        | inr g ↦
            let done : index ≡ count = ground (arith, it.within) in
            (
              record vm { ip = target; stack_top = base },
              state
                  ∙ rw
                      (
                        read_u16-IsInstr vm op_for_next off i,
                        below_top-number next 0 (base + count + 1) (of index)
                            (omega (arith, it.depth)) it.indexed,
                        below_top-number next 1 (base + count) (of count) (omega (arith, it.depth))
                            it.counted,
                        q,
                        le→leb count index (omega arith),
                      )
                      (ap recover (
                        exhausted vm base count target off t it.depth
                          (omega (arith, it.depth, it.room)))),
              over done refl refl refl,
            )
      ]
