-- ===== src/Vm/Chunk/Emit.antt =====
-- Emission appends to the code and to the line table.
use can_do.Base.{
  ℕ, zero, suc, ◌+◌, ◌*◌, ◌/◌, ◌%◌, ◌^◌, ◌≤◌, ◌<◌, ◌≡◌, refl, sym, ap, ◌∙◌, ltb, leb, if◌then◌else◌,
  true, false, List, [], ◌∷◌, ◌++◌, some, arith, set, length, length-set, length-append, take,
  replicate, dec_lt,
}
use can_do.Base.Doubling.{double_until_total}
use can_do.Vm.Chunk.{
  CandoChunk, realloc, chunk_grow, chunk_ensure_code, put, cando_chunk_emit_byte, emit_three,
  emit_five,
}

pub record IsChunk (c : CandoChunk) : Type 0 where
  pub code_cells : length c.code ≡ c.code_cap
  pub line_cells : length c.lines ≡ c.code_cap
  pub used : c.code_len ≤ c.code_cap

-- The bytes in use, and their lines.
abbrev pub bytes : CandoChunk → List ℕ
bytes c = take c.code_len c.code

abbrev pub line_table : CandoChunk → List ℕ
line_table c = take c.code_len c.lines

length-realloc : (junk : ℕ → ℕ) (cells : List ℕ) (n : ℕ) → length (realloc junk cells n) ≡ n
unfolding realloc
length-realloc junk cells zero = refl
length-realloc junk [] (suc n) = ap suc (length-realloc junk [] n)
length-realloc junk (b ∷ cells) (suc n) = ap suc (length-realloc junk cells n)

take-realloc :
    (junk : ℕ → ℕ) (cells : List ℕ) (k n : ℕ)
    → k ≤ length cells
    → k ≤ n
    → take k (realloc junk cells n) ≡ take k cells
unfolding realloc
take-realloc junk cells zero n h l = refl
take-realloc junk [] (suc k) n h l = absurd (omega arith)
take-realloc junk (b ∷ cells) (suc k) zero h l = absurd (omega arith)
take-realloc junk (b ∷ cells) (suc k) (suc n) h l =
    ap (λ (t : List ℕ). b ∷ t) (take-realloc junk cells k n (omega arith) (omega arith))

take-set_end :
    (cells : List ℕ) (k v : ℕ)
    → k < length cells
    → take (k + 1) (set cells k v) ≡ take k cells ++ (v ∷ [])
take-set_end [] k v h = absurd (omega arith)
take-set_end (b ∷ cells) zero v h = refl
take-set_end (b ∷ cells) (suc k) v h =
    let e : suc k + 1 ≡ suc (k + 1) = omega arith in
    ap (λ (n : ℕ). take n (b ∷ set cells k v)) e
    ∙ ap (λ (t : List ℕ). b ∷ t) (take-set_end cells k v (omega arith))

-- What making room keeps.
record Roomy (c : CandoChunk) (extra : ℕ) (b : CandoChunk) : Type 0 where
  valid : IsChunk b
  room : b.code_len + extra ≤ b.code_cap
  len : b.code_len ≡ c.code_len
  same : (bytes b ≡ bytes c) × (line_table b ≡ line_table c)

ensure-Roomy :
    (junk : ℕ → ℕ) (c : CandoChunk)
    → IsChunk c
    → (extra : ℕ) → c.code_len + extra ≤ 2 ^ 30
    → (b : CandoChunk) × (chunk_ensure_code junk c extra ≡ some b) × Roomy c extra b
unfolding chunk_ensure_code chunk_grow
ensure-Roomy junk c w extra small =
    let need = (c.code_len + extra) % 2 ^ 32 in
    let plain : need ≡ c.code_len + extra = omega (arith, small) in
    elim (dec_lt c.code_cap need) [
      | no fits ↦
          let skip : leb need c.code_cap ≡ true = ground (arith, fits) in
          (
            c,
            rw skip,
            record {
              valid = w;
              room = omega (arith, fits, plain);
              len = refl;
              same = (refl, refl);
            },
          )
      | yes more ↦
          let step : leb need c.code_cap ≡ false = ground (arith, more) in
          let start : 0 < (if ltb c.code_cap 8 then 8 else c.code_cap * 2 % 2 ^ 32) =
            ground (arith, more, plain, small) in
          let (n, run, grown) =
            double_until_total 32 32 (chunk_grow c.code_cap) need start
              (omega (arith, start, plain, small)) (omega (arith, plain, small)) in
          let enough = grown.enough in
          let b : CandoChunk = record c {
            code = realloc junk c.code n;
            lines = realloc junk c.lines n;
            code_cap = n;
          } in
          (
            b,
            rw (step, run),
            record {
              valid = record {
                code_cells = length-realloc junk c.code n;
                line_cells = length-realloc junk c.lines n;
                used = omega (arith, enough, plain);
              };
              room = omega (arith, enough, plain);
              len = refl;
              same = (
                take-realloc junk c.code c.code_len n (omega (arith, w.code_cells, w.used))
                    (omega (arith, enough, plain)),
                take-realloc junk c.lines c.code_len n (omega (arith, w.line_cells, w.used))
                    (omega (arith, enough, plain)),
              );
            },
          )
    ]

-- `bs` with their line stand behind the code of `c`.
pub record Emits (c : CandoChunk) (bs : List ℕ) (line : ℕ) (o : CandoChunk) : Type 0 where
  pub valid : IsChunk o
  pub code : bytes o ≡ bytes c ++ bs
  pub line_of : line_table o ≡ line_table c ++ replicate (length bs) line
  pub len : o.code_len ≡ c.code_len + length bs

-- One more byte in a chunk with room for it.
abbrev grown_by_one : CandoChunk → ℕ → ℕ → CandoChunk
grown_by_one b byte line = record (put b b.code_len byte line) { code_len = b.code_len + 1 }

put-Emits :
    (b : CandoChunk) (byte line : ℕ)
    → IsChunk b
    → b.code_len < b.code_cap
    → Emits b (byte ∷ []) line (grown_by_one b byte line)
unfolding put
put-Emits b byte line w room = record {
  valid = record {
    code_cells = length-set b.code b.code_len byte ∙ w.code_cells;
    line_cells = length-set b.lines b.code_len line ∙ w.line_cells;
    used = omega (arith, room);
  };
  code = take-set_end b.code b.code_len byte (omega (arith, room, w.code_cells));
  line_of = take-set_end b.lines b.code_len line (omega (arith, room, w.line_cells));
  len = refl;
}

append_assoc : (xs ys zs : List ℕ) → (xs ++ ys) ++ zs ≡ xs ++ (ys ++ zs)
append_assoc [] ys zs = refl
append_assoc (x ∷ xs) ys zs = ap (λ (t : List ℕ). x ∷ t) (append_assoc xs ys zs)

append_nil : (xs : List ℕ) → xs ++ [] ≡ xs
append_nil [] = refl
append_nil (x ∷ xs) = ap (λ (t : List ℕ). x ∷ t) (append_nil xs)

replicate-snoc :
    (xs : List ℕ) (x v : ℕ)
    → replicate (length xs) v ++ (v ∷ []) ≡ replicate (length (xs ++ (x ∷ []))) v
replicate-snoc [] x v = refl
replicate-snoc (y ∷ xs) x v = ap (λ (t : List ℕ). v ∷ t) (replicate-snoc xs x v)

-- A byte behind those emitted so far.
Emits-snoc :
    (c o : CandoChunk) (xs : List ℕ) (byte line : ℕ)
    → Emits c xs line o
    → o.code_len < o.code_cap
    → Emits c (xs ++ (byte ∷ [])) line (grown_by_one o byte line)
Emits-snoc c o xs byte line e room =
    let p = put-Emits o byte line e.valid room in
    record {
      valid = p.valid;
      code =
          p.code
          ∙ ap (λ (t : List ℕ). t ++ (byte ∷ [])) e.code
          ∙ append_assoc (bytes c) xs (byte ∷ []);
      line_of =
          p.line_of
          ∙ ap (λ (t : List ℕ). t ++ (line ∷ [])) e.line_of
          ∙ append_assoc (line_table c) (replicate (length xs) line) (line ∷ [])
          ∙ ap (λ (t : List ℕ). line_table c ++ t) (replicate-snoc xs byte line);
      len = omega (arith, e.len, length-append xs (byte ∷ []));
    }

-- Nothing emitted yet, in a chunk that has been given room.
Roomy-Emits : (c b : CandoChunk) (extra line : ℕ) → Roomy c extra b → Emits c [] line b
Roomy-Emits c b extra line r = record {
  valid = r.valid;
  code = r.same.0 ∙ sym (append_nil (bytes c));
  line_of = r.same.1 ∙ sym (append_nil (line_table c));
  len = omega (arith, r.len);
}

-- Emission of one instruction, with room in a 30-bit address space: the chunk stays well formed, and
-- its bytes and their lines stand behind those there were.
pub emit_byte-Emits :
    (junk : ℕ → ℕ) (c : CandoChunk)
    → IsChunk c
    → (byte line : ℕ) → c.code_len < 2 ^ 30
    → (o : CandoChunk) × (cando_chunk_emit_byte junk c byte line ≡ some o)
      × Emits c (byte ∷ []) line o
unfolding cando_chunk_emit_byte
emit_byte-Emits junk c w byte line small =
    let (b, run, r) = ensure-Roomy junk c w 1 (omega arith) in
    let room = r.room in
    let len = r.len in
    let e = Emits-snoc c b [] byte line (Roomy-Emits c b 1 line r) (omega (arith, room)) in
    let wrap : (b.code_len + 1) % 2 ^ 32 ≡ b.code_len + 1 = omega (arith, len, small) in
    (
      grown_by_one b byte line,
      rw (cando_chunk_emit_byte, run)
          (ap (λ (n : ℕ). some (record (put b b.code_len byte line) { code_len = n })) wrap),
      e,
    )

abbrev three_at : CandoChunk → ℕ → ℕ → ℕ → ℕ → ℕ → ℕ → ℕ → CandoChunk
three_at b byte x y line i j n = record (put (put (put b b.code_len byte line) i x line) j y line) {
  code_len = n;
}

pub emit_three-Emits :
    (junk : ℕ → ℕ) (c : CandoChunk)
    → IsChunk c
    → (byte a line : ℕ) → c.code_len + 3 ≤ 2 ^ 30
    → (o : CandoChunk) × (emit_three junk c byte a line ≡ some o)
      × Emits c (byte ∷ a % 256 ∷ a / 256 ∷ []) line o
unfolding emit_three put
emit_three-Emits junk c w byte a line small =
    let (b, run, r) = ensure-Roomy junk c w 3 small in
    let room = r.room in
    let len = r.len in
    let x = a % 256 in
    let y = a / 256 in
    let one = grown_by_one b byte line in
    let two = grown_by_one one x line in
    let e1 = Emits-snoc c b [] byte line (Roomy-Emits c b 3 line r) (omega (arith, room)) in
    let e2 = Emits-snoc c one (byte ∷ []) x line e1 (omega (arith, room)) in
    let e3 = Emits-snoc c two (byte ∷ x ∷ []) y line e2 (omega (arith, room)) in
    let n = b.code_len in
    let j : n + 2 ≡ n + 1 + 1 = omega arith in
    let k : (n + 3) % 2 ^ 32 ≡ n + 1 + 1 + 1 = omega (arith, len, small) in
    (
      grown_by_one two y line,
      rw (emit_three, run)
          (ap (λ (m : ℕ). some (three_at b byte x y line (n + 1) m ((n + 3) % 2 ^ 32))) j
            ∙ ap (λ (m : ℕ). some (three_at b byte x y line (n + 1) (n + 1 + 1) m)) k),
      e3,
    )

abbrev five_at : CandoChunk → ℕ → ℕ → ℕ → ℕ → ℕ → ℕ → ℕ → ℕ → ℕ → ℕ → ℕ → CandoChunk
five_at b byte x y z u line i j k l n =
    record (put (put (put (put (put b b.code_len byte line) i x line) j y line) k z line) l u
      line) { code_len = n }

pub emit_five-Emits :
    (junk : ℕ → ℕ) (c : CandoChunk)
    → IsChunk c
    → (byte p q line : ℕ) → c.code_len + 5 ≤ 2 ^ 30
    → (o : CandoChunk) × (emit_five junk c byte p q line ≡ some o)
      × Emits c (byte ∷ p % 256 ∷ p / 256 ∷ q % 256 ∷ q / 256 ∷ []) line o
unfolding emit_five put
emit_five-Emits junk c w byte p q line small =
    let (b, run, r) = ensure-Roomy junk c w 5 small in
    let room = r.room in
    let len = r.len in
    let x = p % 256 in
    let y = p / 256 in
    let z = q % 256 in
    let u = q / 256 in
    let one = grown_by_one b byte line in
    let two = grown_by_one one x line in
    let three = grown_by_one two y line in
    let four = grown_by_one three z line in
    let e1 = Emits-snoc c b [] byte line (Roomy-Emits c b 5 line r) (omega (arith, room)) in
    let e2 = Emits-snoc c one (byte ∷ []) x line e1 (omega (arith, room)) in
    let e3 = Emits-snoc c two (byte ∷ x ∷ []) y line e2 (omega (arith, room)) in
    let e4 = Emits-snoc c three (byte ∷ x ∷ y ∷ []) z line e3 (omega (arith, room)) in
    let e5 = Emits-snoc c four (byte ∷ x ∷ y ∷ z ∷ []) u line e4 (omega (arith, room)) in
    let n = b.code_len in
    let at = five_at b byte x y z u line (n + 1) in
    let i2 : n + 2 ≡ n + 1 + 1 = omega arith in
    let i3 : n + 3 ≡ n + 1 + 1 + 1 = omega arith in
    let i4 : n + 4 ≡ n + 1 + 1 + 1 + 1 = omega arith in
    let i5 : (n + 5) % 2 ^ 32 ≡ n + 1 + 1 + 1 + 1 + 1 = omega (arith, len, small) in
    (
      grown_by_one four u line,
      rw (emit_five, run)
          (ap (λ (m : ℕ). some (at m (n + 3) (n + 4) ((n + 5) % 2 ^ 32))) i2
            ∙ ap (λ (m : ℕ). some (at (n + 1 + 1) m (n + 4) ((n + 5) % 2 ^ 32))) i3
            ∙ ap (λ (m : ℕ). some (at (n + 1 + 1) (n + 1 + 1 + 1) m ((n + 5) % 2 ^ 32))) i4
            ∙ ap (λ (m : ℕ). some (at (n + 1 + 1) (n + 1 + 1 + 1) (n + 1 + 1 + 1 + 1) m)) i5),
      e5,
    )
