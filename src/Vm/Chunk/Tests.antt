-- ===== src/Vm/Chunk/Tests.antt =====
-- Code emitted into a small chunk, and the theorems about emission applied there.
use can_do.Base.{ℕ, ◌+◌, ◌-◌, ◌^◌, ◌≡◌, refl, ltb, ◌==◌, false, [], ◌∷◌, some, arith}
use can_do.Base.Doubling.{double_until}
use can_do.Vm.Opcodes.{op_loop_mark, byte_of, cando_opcode_fmt, cando_opcode_size}
use can_do.Vm.Chunk.{
  CandoChunk, realloc, chunk_grow, chunk_ensure_code, put, cando_chunk_emit_byte,
  cando_chunk_emit_op, emit_three, cando_chunk_emit_op_a, emit_five, cando_chunk_emit_op_ab,
  cando_chunk_emit_jump, cando_write_u16, cando_read_u16, cando_chunk_patch_jump,
}
use can_do.Vm.Chunk.Emit.{IsChunk, Emits}
use can_do.Vm.Chunk.Jump.{encode, emit, emit-Emits, read-write, landing, patch_jump-lands}

everything : Unit {0}
unfolding byte_of cando_opcode_fmt cando_opcode_size realloc chunk_grow chunk_ensure_code put
    cando_chunk_emit_byte cando_chunk_emit_op emit_three cando_chunk_emit_op_a emit_five
    cando_chunk_emit_op_ab cando_chunk_emit_jump cando_write_u16 cando_read_u16
    cando_chunk_patch_jump landing double_until
everything = tt

abbrev zeros : ℕ → ℕ
zeros n = 0

-- A conditional jump, its operand still open, and one instruction behind it.
abbrev branch : CandoChunk
branch = record {
  code = 73 ∷ 255 ∷ 127 ∷ 4 ∷ 0 ∷ 0 ∷ 0 ∷ 0 ∷ [];
  code_len = 4;
  code_cap = 8;
  lines = 1 ∷ 1 ∷ 1 ∷ 2 ∷ 0 ∷ 0 ∷ 0 ∷ 0 ∷ [];
  arity = 0;
  local_count = 0;
  upval_count = 0;
  has_vararg = false;
}

branch-IsChunk : IsChunk branch
branch-IsChunk = record { code_cells = refl; line_cells = refl; used = omega arith }

emit-Emits_example :
    (o : CandoChunk) × (emit zeros branch op_loop_mark 300 5 9 ≡ some o)
    × Emits branch (encode op_loop_mark 300 5) 9 o
emit-Emits_example = emit-Emits zeros branch branch-IsChunk op_loop_mark 300 5 9 (omega arith)

read-write_example : cando_read_u16 (cando_write_u16 branch.code 1 4660) 1 ≡ 4660
read-write_example = read-write branch.code 1 4660 (omega arith) (omega arith)

patch_jump-lands_example :
    (o : CandoChunk) × (cando_chunk_patch_jump branch 1 ≡ some o)
    × (o.code_len ≡ branch.code_len)
    × ((landing o.code 1 == branch.code_len) ≡ ltb (branch.code_len - (1 + 2)) (2 ^ 15))
patch_jump-lands_example = patch_jump-lands branch branch-IsChunk (omega arith) 1 (omega arith)
