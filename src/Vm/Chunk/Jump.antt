-- ===== src/Vm/Chunk/Jump.antt =====
-- Emission of whole instructions, and the target that a patched jump has when the machine reads it.
use can_do.Base.{
  ℕ, ◌+◌, ◌-◌, ◌/◌, ◌%◌, ◌^◌, ◌≤◌, ◌<◌, ◌≡◌, refl, ltb, leb, ◌==◌, if◌then◌else◌, true, List, [],
  ◌∷◌, Option, some, arith, set, length, length-set,
}
use can_do.Base.Cells.{get_or-set}
use can_do.Vm.Opcodes.{
  CandoOpcode, byte_of, CandoOpFmt, opfmt_none, opfmt_a, opfmt_a_b, cando_opcode_fmt,
}
use can_do.Vm.Chunk.{
  CandoChunk, cando_chunk_emit_op, cando_chunk_emit_op_a, cando_chunk_emit_op_ab, cando_write_u16,
  cando_read_u16, cando_chunk_patch_jump,
}
use can_do.Vm.Chunk.Emit.{IsChunk, Emits, emit_byte-Emits, emit_three-Emits, emit_five-Emits}

-- The bytes of an instruction with operands `a` and `b`, by its format.
abbrev pub encode : CandoOpcode → ℕ → ℕ → List ℕ
encode op a b = elim (cando_opcode_fmt op) [
  | opfmt_none ↦ byte_of op ∷ []
  | opfmt_a ↦ byte_of op ∷ a % 256 ∷ a / 256 ∷ []
  | opfmt_a_b ↦ byte_of op ∷ a % 256 ∷ a / 256 ∷ b % 256 ∷ b / 256 ∷ []
]

-- The emission that goes with the format of the instruction.
abbrev pub emit : (ℕ → ℕ) → CandoChunk → CandoOpcode → ℕ → ℕ → ℕ → Option CandoChunk
emit junk c op a b line = elim (cando_opcode_fmt op) [
  | opfmt_none ↦ cando_chunk_emit_op junk c op line
  | opfmt_a ↦ cando_chunk_emit_op_a junk c op a line
  | opfmt_a_b ↦ cando_chunk_emit_op_ab junk c op a b line
]

module _ (junk : ℕ → ℕ) (c : CandoChunk) (w : IsChunk c) (op : CandoOpcode) (a b line : ℕ)
    (small : c.code_len + 5 ≤ 2 ^ 30) where
  emit_fmt :
      (f : CandoOpFmt)
      → cando_opcode_fmt op ≡ f
      → (o : CandoChunk) × (emit junk c op a b line ≡ some o) × Emits c (encode op a b) line o
  unfolding cando_chunk_emit_op cando_chunk_emit_op_a cando_chunk_emit_op_ab
  emit_fmt opfmt_none e =
      let (o, run, x) = emit_byte-Emits junk c w (byte_of op) line (omega (arith, small)) in
      (o, rw (emit, e) (rw (cando_chunk_emit_op, e) run), rw (encode, e) x)
  emit_fmt opfmt_a e =
      let (o, run, x) = emit_three-Emits junk c w (byte_of op) a line (omega (arith, small)) in
      (o, rw (emit, e) (rw (cando_chunk_emit_op_a, e) run), rw (encode, e) x)
  emit_fmt opfmt_a_b e =
      let (o, run, x) = emit_five-Emits junk c w (byte_of op) a b line small in
      (o, rw (emit, e) (rw (cando_chunk_emit_op_ab, e) run), rw (encode, e) x)

  -- In a well-formed chunk of at most 2^30 bytes, the emission that goes with an instruction's format
  -- succeeds, keeps the chunk well formed and appends the instruction's bytes, each with its line.
  pub emit-Emits :
      (o : CandoChunk) × (emit junk c op a b line ≡ some o) × Emits c (encode op a b) line o
  emit-Emits = emit_fmt (cando_opcode_fmt op) refl

-- A word that is written is read back.
pub read-write :
    (code : List ℕ) (at val : ℕ)
    → at + 1 < length code
    → val < 2 ^ 16
    → cando_read_u16 (cando_write_u16 code at val) at ≡ val
unfolding cando_read_u16 cando_write_u16
read-write code at val room word =
    let one = set code at (val % 256) in
    let lo =
      get_or-set one (at + 1) at (val / 256) 0
        (omega (arith, room, length-set code at (val % 256))) in
    let lo' = get_or-set code at at (val % 256) 0 (omega (arith, room)) in
    let hi =
      get_or-set one (at + 1) (at + 1) (val / 256) 0
        (omega (arith, room, length-set code at (val % 256))) in
    ground (arith, lo, lo', hi, word)

-- Where the machine goes on after a forward jump whose operand stands at `at`: the operand is a signed
-- 16-bit offset from the end of the instruction.
unfoldable pub landing : List ℕ → ℕ → ℕ
landing code at =
    let u = cando_read_u16 code at in if ltb u (2 ^ 15) then at + 2 + u else at + 2 + u - 2 ^ 16

jump_word :
    (len at u : ℕ)
    → at + 2 ≤ len
    → u ≡ (len - (at + 2)) % 2 ^ 16
    → ((if ltb u (2 ^ 15) then at + 2 + u else at + 2 + u - 2 ^ 16) == len)
      ≡ ltb (len - (at + 2)) (2 ^ 15)
jump_word len at u room e = ground (arith, e, room)

-- In a well-formed chunk of at most 2^30 bytes a forward jump can be patched, and it then lands at the
-- end of the code exactly if that is at most 32767 bytes ahead.
pub patch_jump-lands :
    (c : CandoChunk)
    → IsChunk c
    → c.code_len ≤ 2 ^ 30
    → (at : ℕ) → at + 2 ≤ c.code_len
    → (o : CandoChunk) × (cando_chunk_patch_jump c at ≡ some o)
      × (o.code_len ≡ c.code_len)
      × ((landing o.code at == c.code_len) ≡ ltb (c.code_len - (at + 2)) (2 ^ 15))
unfolding cando_chunk_patch_jump landing
patch_jump-lands c w small at room =
    let end : (at + 2) % 2 ^ 32 ≡ at + 2 = omega (arith, small, room) in
    let legal : leb (at + 2) c.code_len ≡ true = ground (arith, room) in
    let val = (c.code_len - (at + 2)) % 2 ^ 16 in
    let back = read-write c.code at val (omega (arith, room, w.code_cells, w.used)) (omega arith) in
    (
      record c { code = cando_write_u16 c.code at val },
      rw (cando_chunk_patch_jump, end, legal),
      refl,
      jump_word c.code_len at (cando_read_u16 (cando_write_u16 c.code at val) at) room back,
    )
