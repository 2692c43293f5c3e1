-- ===== src/Vm/Machine/Instr.antt =====
-- source/vm/vm.c, vm_run: an instruction in the code is dispatched to its handler.
use can_do.Base.{ℕ, ◌+◌, ◌<◌, some, get_elem?, length, ◌≡◌, refl, arith}
use can_do.Vm.Opcodes.{CandoOpcode, byte_of, op_const}
use can_do.Vm.Chunk.{cando_read_u16}
use can_do.Vm.Machine.{CandoVm, CodePtr}
use can_do.Vm.Machine.Act.{Host, ok, read_u16}
use can_do.Vm.Machine.Exec.{read_byte, exec, dispatch_table, recover, step}

-- Every instruction is found in the table under its byte.
dispatch_table-byte_of : (op : CandoOpcode) → get_elem? dispatch_table (byte_of op) ≡ some op
unfolding byte_of
dispatch_table-byte_of op_const = refl
dispatch_table-byte_of _ = refl

-- The instruction at a place in the code.
abbrev pub IsOpcode : CodePtr → CandoOpcode → Type 0
IsOpcode at op = get_elem? at.block at.offset ≡ some (byte_of op)

-- The instruction at a place in the code, with one operand.
pub record IsInstr (at : CodePtr) (op : CandoOpcode) (a : ℕ) : Type 0 where
  pub opcode : IsOpcode at op
  pub operand_inside : at.offset + 2 < length at.block
  pub operand : cando_read_u16 at.block (at.offset + 1) ≡ a

-- The place `n` bytes on.
abbrev pub forward : CodePtr → ℕ → CodePtr
forward at n = record at { offset = at.offset + n }

pub step-IsOpcode :
    (h : Host) (vm : CandoVm) (op : CandoOpcode)
    → IsOpcode vm.ip op
    → step h vm ≡ recover (exec h op (record vm { ip = forward vm.ip 1 }))
unfolding step read_byte
step-IsOpcode h vm op i = rw (i, dispatch_table-byte_of op)

pub read_u16-IsInstr :
    (vm : CandoVm) (op : CandoOpcode) (a : ℕ)
    → IsInstr vm.ip op a
    → read_u16 (record vm { ip = forward vm.ip 1 }) ≡ ok a (record vm { ip = forward vm.ip 3 })
unfolding read_u16
read_u16-IsInstr vm op a i = ground arith
