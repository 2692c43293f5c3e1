-- ===== src/Vm/Chunk.antt =====
-- source/vm/chunk.c: the code of a chunk and its line table, two blocks of `code_cap` cells of which the
-- first `code_len` are in use. Bytes and lines are numbers. The cells that `realloc` adds hold whatever
-- memory held: `junk`. `none` is a failed assertion, which aborts, or a capacity loop that does not end.
-- The constant pool is modelled by itself.
pub mod Emit
pub mod Jump
mod Tests
use can_do.Base.{
  ℕ, zero, suc, ◌+◌, ◌-◌, ◌*◌, ◌/◌, ◌%◌, ◌^◌, ltb, leb, ◌==◌, if◌then◌else◌, Bool, true, false,
  List, [], ◌∷◌, Option, none, some, get_or, set, length,
}
use can_do.Base.Doubling.{double_until}
use can_do.Vm.Opcodes.{
  CandoOpcode, op_loop, byte_of, CandoOpFmt, opfmt_none, opfmt_a, opfmt_a_b, cando_opcode_fmt,
}

pub record CandoChunk : Type 0 where
  pub code : List ℕ
  pub code_len : ℕ
  pub code_cap : ℕ
  pub lines : List ℕ
  pub arity : ℕ
  pub local_count : ℕ
  pub upval_count : ℕ
  pub has_vararg : Bool

abbrev pub cando_chunk_new : ℕ → Bool → CandoChunk
cando_chunk_new arity has_vararg = record {
  code = [];
  code_len = 0;
  code_cap = 0;
  lines = [];
  arity = arity;
  local_count = arity;
  upval_count = 0;
  has_vararg = has_vararg;
}

-- `cando_realloc`: the old cells as far as they fit, then cells with no particular contents.
unfoldable pub realloc : (ℕ → ℕ) → List ℕ → ℕ → List ℕ
realloc junk cells zero = []
realloc junk [] (suc n) = junk n ∷ realloc junk [] n
realloc junk (b ∷ cells) (suc n) = b ∷ realloc junk cells n

-- CHUNK_GROW
unfoldable pub chunk_grow : ℕ → ℕ
chunk_grow n = if ltb n 8 then 8 else n * 2 % 2 ^ 32

unfoldable pub chunk_ensure_code : (ℕ → ℕ) → CandoChunk → ℕ → Option CandoChunk
unfolding chunk_grow realloc double_until
chunk_ensure_code junk c extra =
    let need = (c.code_len + extra) % 2 ^ 32 in
    if leb need c.code_cap
    then some c
    else (elim (double_until 32 32 (chunk_grow c.code_cap) need) [
      | none ↦ none
      | some new_cap ↦ some (record c {
        code = realloc junk c.code new_cap;
        lines = realloc junk c.lines new_cap;
        code_cap = new_cap;
      })
    ])

-- A byte and its line go to cell `at`.
unfoldable pub put : CandoChunk → ℕ → ℕ → ℕ → CandoChunk
put c at byte line = record c { code = set c.code at byte; lines = set c.lines at line }

unfoldable pub cando_chunk_emit_byte : (ℕ → ℕ) → CandoChunk → ℕ → ℕ → Option CandoChunk
unfolding put
cando_chunk_emit_byte junk c byte line = elim (chunk_ensure_code junk c 1) [
  | none ↦ none
  | some b ↦ some (record (put b b.code_len byte line) { code_len = (b.code_len + 1) % 2 ^ 32 })
]

unfoldable pub cando_chunk_emit_op : (ℕ → ℕ) → CandoChunk → CandoOpcode → ℕ → Option CandoChunk
cando_chunk_emit_op junk c op line = elim (cando_opcode_fmt op) [
  | opfmt_none ↦ cando_chunk_emit_byte junk c (byte_of op) line
  | _ ↦ none
]

-- The body of cando_chunk_emit_op_a behind its assertion.
unfoldable pub emit_three : (ℕ → ℕ) → CandoChunk → ℕ → ℕ → ℕ → Option CandoChunk
unfolding put
emit_three junk c byte a line = elim (chunk_ensure_code junk c 3) [
  | none ↦ none
  | some b ↦
      let n = b.code_len in
      let one = put b n byte line in
      let two = put one (n + 1) (a % 256) line in
      let three = put two (n + 2) (a / 256) line in
      some (record three { code_len = (n + 3) % 2 ^ 32 })
]

unfoldable pub cando_chunk_emit_op_a :
    (ℕ → ℕ) → CandoChunk → CandoOpcode → ℕ → ℕ → Option CandoChunk
cando_chunk_emit_op_a junk c op a line = elim (cando_opcode_fmt op) [
  | opfmt_a ↦ emit_three junk c (byte_of op) a line
  | _ ↦ none
]

unfoldable pub emit_five : (ℕ → ℕ) → CandoChunk → ℕ → ℕ → ℕ → ℕ → Option CandoChunk
unfolding put
emit_five junk c byte x y line = elim (chunk_ensure_code junk c 5) [
  | none ↦ none
  | some b ↦
      let n = b.code_len in
      let one = put b n byte line in
      let two = put one (n + 1) (x % 256) line in
      let three = put two (n + 2) (x / 256) line in
      let four = put three (n + 3) (y % 256) line in
      let five = put four (n + 4) (y / 256) line in
      some (record five { code_len = (n + 5) % 2 ^ 32 })
]

unfoldable pub cando_chunk_emit_op_ab :
    (ℕ → ℕ) → CandoChunk → CandoOpcode → ℕ → ℕ → ℕ → Option CandoChunk
cando_chunk_emit_op_ab junk c op x y line = elim (cando_opcode_fmt op) [
  | opfmt_a_b ↦ emit_five junk c (byte_of op) x y line
  | _ ↦ none
]

-- The chunk and the offset of the operand.
unfoldable pub cando_chunk_emit_jump :
    (ℕ → ℕ) → CandoChunk → CandoOpcode → ℕ → Option (CandoChunk × ℕ)
cando_chunk_emit_jump junk c op line = elim (cando_chunk_emit_op_a junk c op 0x7FFF line) [
  | none ↦ none
  | some o ↦ some (o, (c.code_len + 1) % 2 ^ 32)
]

unfoldable pub cando_write_u16 : List ℕ → ℕ → ℕ → List ℕ
cando_write_u16 code at val = set (set code at (val % 256)) (at + 1) (val / 256)

unfoldable pub cando_read_u16 : List ℕ → ℕ → ℕ
cando_read_u16 code at = (get_or code at 0 + get_or code (at + 1) 0 * 256) % 2 ^ 16

-- The cast to i16 and back to u16 keeps the low 16 bits.
unfoldable pub cando_chunk_patch_jump : CandoChunk → ℕ → Option CandoChunk
unfolding cando_write_u16
cando_chunk_patch_jump c patch_offset =
    let instr_end = (patch_offset + 2) % 2 ^ 32 in
    if leb instr_end c.code_len
    then some (record c {
      code = cando_write_u16 c.code patch_offset ((c.code_len - instr_end) % 2 ^ 16);
    })
    else none

unfoldable pub cando_chunk_patch_jump_to : CandoChunk → ℕ → ℕ → CandoChunk
unfolding cando_write_u16
cando_chunk_patch_jump_to c patch_offset target =
    let instr_end = (patch_offset + 2) % 2 ^ 32 in
    record c { code = cando_write_u16 c.code patch_offset ((target + 2 ^ 32 - instr_end) % 2 ^ 16) }

unfoldable pub cando_chunk_emit_loop : (ℕ → ℕ) → CandoChunk → ℕ → ℕ → Option CandoChunk
cando_chunk_emit_loop junk c loop_start line =
    let instr_end = (c.code_len + 3) % 2 ^ 32 in
    if ltb loop_start instr_end
    then cando_chunk_emit_op_a junk c op_loop ((instr_end - loop_start) % 2 ^ 16) line
    else none
