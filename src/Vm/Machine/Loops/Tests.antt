-- ===== src/Vm/Machine/Loops/Tests.antt =====
-- A FOR loop of source/vm/vm.c at a concrete state.
use can_do.Base.{ℕ, ◌+◌, ◌-◌, leb, [], ◌∷◌, some, ◌≡◌, refl, arith, ltb, ◌==◌, ◌*◌, ◌/◌, ◌%◌, ◌^◌}
use can_do.Core.Value.{number}
use can_do.Vm.Opcodes.{byte_of, op_break, op_for_next}
use can_do.Vm.Chunk.{cando_read_u16}
use can_do.Vm.Machine.{CandoVm, cando_vm_init, write}
use can_do.Vm.Machine.Act.{Host, ok, shifted}
use can_do.Vm.Machine.Exec.{step}
use can_do.Vm.Machine.Instr.{IsInstr, forward}
use can_do.Vm.Machine.Loops.State.{IsExact, IsIterating}
use can_do.Vm.Machine.Loops.Iteration.{Turn, for_next-Turn}
use can_do.Vm.Machine.Loops.Break.{loop_break_for}

-- Doubles that stand for themselves, and empty messages.
abbrev host : Host
host = record {
  format = λ e vm. [];
  f64_lt = λ a b. ltb a b;
  f64_geq = λ a b. leb b a;
  f64_eq = λ a b. a == b;
  f64_zero = 0;
  f64_add = λ a b. a + b;
  f64_sub = λ a b. a - b;
  f64_mul = λ a b. a * b;
  f64_div = λ a b. a / b;
  fmod = λ a b. a % b;
  pow = λ a b. a ^ b;
  f64_dec = λ a. a - 1;
  f64_inc = λ a. a + 1;
  f64_trunc = λ a. a;
}

host-IsExact : IsExact host (λ n. n)
host-IsExact = record { geq = λ a b l m. refl; inc = λ a l. refl; trunc = λ a l. refl }

-- A loop over three values, of which one had its turn, and its next instruction.
abbrev looping : ℕ → CandoVm
looping op = record cando_vm_init {
  ip = record { block = op ∷ 0 ∷ 0 ∷ []; offset = 0 };
  stack = write (write cando_vm_init.stack 4 (number 3)) 5 (number 1);
  stack_top = 6;
  frame_count = 1;
  loop_stack = λ i. record {
    break_ip = record { block = op ∷ []; offset = 1 };
    cont_ip = record { block = op ∷ []; offset = 0 };
    stack_save = 6;
    loop_type = 1;
  };
  loop_depth = 1;
}

looping-IsIterating : (op : ℕ) → IsIterating (λ n. n) 1 3 1 (looping op).stack 6
looping-IsIterating op = record {
  depth = refl;
  room = omega arith;
  counted = refl;
  indexed = refl;
  within = omega arith;
}

break-IsInstr : IsInstr (looping 63).ip op_break 0
unfolding byte_of cando_read_u16
break-IsInstr = record { opcode = refl; operand_inside = omega arith; operand = refl }

-- Two of the three values stay behind.
loop_break_for_example :
    step host (looping 63)
    ≡ ok tt (record (looping 63) {
      stack_top = 1 + (3 - 1);
      spread_extra = 0;
      ip = record { block = 63 ∷ []; offset = 1 };
      loop_depth = 1 - 1 - 0;
    })
loop_break_for_example =
    loop_break_for host (λ n. n) host-IsExact (looping 63) 1 3 1 0 break-IsInstr (omega arith) refl
      (omega arith) (looping-IsIterating 63)

next-IsInstr : IsInstr (looping 79).ip op_for_next 0
unfolding byte_of cando_read_u16
next-IsInstr = record { opcode = refl; operand_inside = omega arith; operand = refl }

zero-shifted : shifted (forward (looping 79).ip 3) 0 ≡ some (forward (looping 79).ip 3)
unfolding shifted
zero-shifted = refl

for_next-Turn_example :
    (next : CandoVm) × (step host (looping 79) ≡ ok tt next)
    × Turn (λ n. n) 1 3 1 (forward (looping 79).ip 3) (looping 79) next
for_next-Turn_example =
    for_next-Turn host (λ n. n) host-IsExact (looping 79) 1 3 1 0 (forward (looping 79).ip 3)
      next-IsInstr zero-shifted (looping-IsIterating 79)
