-- ===== src/Parser/Lexer/Scan.antt =====
-- The loops of the lexer: each ends within its fuel, moves forward within the source, and keeps count of
-- the lines.
use can_do.Base.{
  ℕ, zero, suc, ◌+◌, ◌≤◌, ◌<◌, ◌≡◌, inl, inr, refl, sym, ap, ◌∙◌, ◌==◌, if◌then◌else◌, Bool, true,
  false, ◌&&◌, List, some, arith, length, get_or, Bool-cases,
}
use can_do.Parser.Lexer.{
  CandoLexer, lex_peek_char, lex_at_end, lex_advance, advance_while, fuel_for, is_digit, in_digits,
  skip_block, skip_string, skip_braces, skip_template, Closing, closed, open_string, open_braces,
}

-- The newlines among the first `p` bytes, and where the line of position `p` starts.
unfoldable pub newlines : List ℕ → ℕ → ℕ
newlines source zero = 0
newlines source (suc p) = newlines source p + (if get_or source p 0 == b'\n' then 1 else 0)

unfoldable pub line_start_of : List ℕ → ℕ → ℕ
line_start_of source zero = 0
line_start_of source (suc p) = if get_or source p 0 == b'\n' then suc p else line_start_of source p

-- The cursor is within the source, and its line is the one that it stands on.
pub record IsAt (lex : CandoLexer) : Type 0 where
  pub within : lex.pos ≤ length lex.source
  pub line_is : lex.line ≡ 1 + newlines lex.source lex.pos
  pub start_is : lex.line_start ≡ line_start_of lex.source lex.pos

-- The lexer `o` stands in the same source, behind `lex` or where it stands.
pub record Reaches (lex o : CandoLexer) : Type 0 where
  pub valid : IsAt o
  pub same : o.source ≡ lex.source
  pub forth : lex.pos ≤ o.pos

pub Reaches-trans : {a b c : CandoLexer} → Reaches a b → Reaches b c → Reaches a c
Reaches-trans r s = record {
  valid = s.valid;
  same = s.same ∙ r.same;
  forth = omega (arith, r.forth, s.forth);
}

pub Reaches-refl : {a : CandoLexer} → IsAt a → Reaches a a
Reaches-refl w = record { valid = w; same = refl; forth = omega arith }

pub step_line :
    (source : List ℕ) (p : ℕ)
    → newlines source (p + 1) ≡ newlines source p + (if get_or source p 0 == b'\n' then 1 else 0)
unfolding newlines
step_line source p = let e : p + 1 ≡ suc p = omega arith in ap (newlines source) e

pub step_start :
    (source : List ℕ) (p : ℕ)
    → line_start_of source (p + 1)
      ≡ (if get_or source p 0 == b'\n' then p + 1 else line_start_of source p)
unfolding line_start_of
step_start source p =
    let e : p + 1 ≡ suc p = omega arith in
    ap (line_start_of source) e
    ∙ ap (λ (n : ℕ). if get_or source p 0 == b'\n' then n else line_start_of source p) (sym e)

module _ (lex : CandoLexer) (w : IsAt lex) where
  pub advance-Reaches : Reaches lex (lex_advance lex)
  unfolding lex_advance lex_at_end
  advance-Reaches =
      let e = step_line lex.source lex.pos in
      let f = step_start lex.source lex.pos in
      elim (Bool-cases (lex_at_end lex)) [
        | inl done ↦ rw done (Reaches-refl w)
        | inr more ↦ elim (Bool-cases (get_or lex.source lex.pos 0 == b'\n')) [
          | inl nl ↦
              rw (more, nl)
                (record {
                  valid = record {
                    within = ground (arith, more);
                    line_is = ground (arith, e, nl, w.line_is);
                    start_is = ground (arith, f, nl, w.start_is);
                  };
                  same = refl;
                  forth = omega arith;
                })
          | inr other ↦
              rw (more, other)
                (record {
                  valid = record {
                    within = ground (arith, more);
                    line_is = ground (arith, e, other, w.line_is);
                    start_is = ground (arith, f, other, w.start_is);
                  };
                  same = refl;
                  forth = omega arith;
                })
        ]
      ]

  pub advance_moves : lex.pos < length lex.source → (lex_advance lex).pos ≡ lex.pos + 1
  unfolding lex_advance
  advance_moves l = ground (arith, l)

  pub advance_source : (lex_advance lex).source ≡ lex.source
  advance_source = advance-Reaches.same

-- A loop with a test that fails at the end of the source.
pub advance_while_lem :
    (test : CandoLexer → Bool)
    → ((o : CandoLexer) → test o ≡ true → o.pos < length o.source)
    → (fuel : ℕ) (lex : CandoLexer) → IsAt lex
    → length lex.source < fuel + lex.pos
    → (o : CandoLexer) × (advance_while test fuel lex ≡ some o) × Reaches lex o × (test o ≡ false)
unfolding advance_while
advance_while_lem test ends zero lex w enough = absurd (omega (arith, enough, w.within))
advance_while_lem test ends (suc fuel) lex w enough = elim (Bool-cases (test lex)) [
  | inr stop ↦ (lex, rw stop, Reaches-refl w, stop)
  | inl more ↦
      let l = ends lex more in
      let r = advance-Reaches lex w in
      let (o, run, s, stop) =
        advance_while_lem test ends fuel (lex_advance lex) r.valid
          (omega (arith, enough, advance_moves lex w l, ap length r.same)) in
      (o, rw more run, Reaches-trans r s, stop)
]

-- A digit is read within the source: at the end the lexer reads 0.
pub digit_within : (o : CandoLexer) → in_digits o ≡ true → o.pos < length o.source
unfolding is_digit lex_peek_char
digit_within o e = ground (arith, e)

pub not_end_within : (o : CandoLexer) → lex_at_end o ≡ false → o.pos < length o.source
unfolding lex_at_end
not_end_within o e = ground (arith, e)

pub skip_block_lem :
    (fuel : ℕ) (lex : CandoLexer)
    → IsAt lex
    → length lex.source < fuel + lex.pos
    → (o : CandoLexer) × (b : Bool) × (skip_block fuel lex ≡ some (o, b)) × Reaches lex o
unfolding skip_block
skip_block_lem zero lex w enough = absurd (omega (arith, enough, w.within))
skip_block_lem (suc fuel) lex w enough = elim (Bool-cases (lex_at_end lex)) [
  | inl done ↦ (lex, false, rw done, Reaches-refl w)
  | inr more ↦
      let next = lex_advance lex in
      let r = advance-Reaches lex w in
      elim (Bool-cases ((lex_peek_char lex == b'*') && (lex_peek_char next == b'/'))) [
        | inl shut ↦ (
          lex_advance next,
          true,
          rw (more, shut),
          Reaches-trans r (advance-Reaches next r.valid),
        )
        | inr other ↦
            let (o, b, run, s) = skip_block_lem fuel next r.valid (
              omega
                (arith, enough, advance_moves lex w (not_end_within lex more), ap length r.same)) in
            (o, b, rw (more, other) run, Reaches-trans r s)
      ]
]

-- A step past one more character keeps the fuel enough.
enough_after :
    (fuel : ℕ) (lex o : CandoLexer)
    → IsAt lex
    → lex_at_end lex ≡ false
    → Reaches (lex_advance lex) o
    → length lex.source < suc fuel + lex.pos
    → length o.source < fuel + o.pos
enough_after fuel lex o w more r enough =
    let same = ap length (r.same ∙ (advance-Reaches lex w).same) in
    omega (arith, enough, advance_moves lex w (not_end_within lex more), same, r.forth)

pub skip_string_lem :
    (quote fuel : ℕ) (lex : CandoLexer)
    → IsAt lex
    → length lex.source < fuel + lex.pos
    → (o : CandoLexer) × (b : Bool) × (skip_string quote fuel lex ≡ some (o, b)) × Reaches lex o
unfolding skip_string
skip_string_lem quote zero lex w enough = absurd (omega (arith, enough, w.within))
skip_string_lem quote (suc fuel) lex w enough = elim (Bool-cases (lex_at_end lex)) [
  | inl done ↦ (lex, false, rw done, Reaches-refl w)
  | inr more ↦
      let next = lex_advance lex in
      let r = advance-Reaches lex w in
      let r2 = advance-Reaches next r.valid in
      elim (Bool-cases (lex_peek_char lex == b'\\')) [
        | inl slash ↦ elim (Bool-cases (lex_at_end next)) [
          | inl last ↦ (next, false, rw (more, slash, last), r)
          | inr escaped ↦
              let (o, b, run, s) =
                skip_string_lem quote fuel (lex_advance next) r2.valid
                  (enough_after fuel lex (lex_advance next) w more r2 enough) in
              (o, b, rw (more, slash, escaped) run, Reaches-trans r (Reaches-trans r2 s))
        ]
        | inr plain ↦ elim (Bool-cases (lex_peek_char lex == quote)) [
          | inl end ↦ (next, true, rw (more, plain, end), r)
          | inr inner ↦
              let (o, b, run, s) =
                skip_string_lem quote fuel next r.valid
                  (enough_after fuel lex next w more (Reaches-refl r.valid) enough) in
              (o, b, rw (more, plain, inner) run, Reaches-trans r s)
        ]
      ]
]

pub skip_braces_lem :
    (fuel depth : ℕ) (lex : CandoLexer)
    → IsAt lex
    → length lex.source < fuel + lex.pos
    → (o : CandoLexer) × (b : Bool) × (skip_braces fuel depth lex ≡ some (o, b)) × Reaches lex o
unfolding skip_braces
skip_braces_lem fuel zero lex w enough = (lex, true, refl, Reaches-refl w)
skip_braces_lem zero (suc depth) lex w enough = absurd (omega (arith, enough, w.within))
skip_braces_lem (suc fuel) (suc depth) lex w enough = elim (Bool-cases (lex_at_end lex)) [
  | inl done ↦ (lex, false, rw done, Reaches-refl w)
  | inr more ↦
      let c = lex_peek_char lex in
      let r = advance-Reaches lex w in
      let (o, b, run, s) =
        skip_braces_lem fuel
          (if c == b'{' then suc (suc depth) else if c == b'}' then depth else suc depth)
          (lex_advance lex) r.valid
          (enough_after fuel lex (lex_advance lex) w more (Reaches-refl r.valid) enough) in
      (o, b, rw more run, Reaches-trans r s)
]

pub skip_template_lem :
    (fuel : ℕ) (lex : CandoLexer)
    → IsAt lex
    → length lex.source < fuel + lex.pos
    → (o : CandoLexer) × (b : Closing) × (skip_template fuel lex ≡ some (o, b)) × Reaches lex o
unfolding skip_template
skip_template_lem zero lex w enough = absurd (omega (arith, enough, w.within))
skip_template_lem (suc fuel) lex w enough = elim (Bool-cases (lex_at_end lex)) [
  | inl done ↦ (lex, open_string, rw done, Reaches-refl w)
  | inr more ↦
      let next = lex_advance lex in
      let r = advance-Reaches lex w in
      let r2 = advance-Reaches next r.valid in
      elim (Bool-cases (lex_peek_char lex == b'\\')) [
        | inl slash ↦ elim (Bool-cases (lex_at_end next)) [
          | inl last ↦ (next, open_string, rw (more, slash, last), r)
          | inr escaped ↦
              let (o, b, run, s) =
                skip_template_lem fuel (lex_advance next) r2.valid
                  (enough_after fuel lex (lex_advance next) w more r2 enough) in
              (o, b, rw (more, slash, escaped) run, Reaches-trans r (Reaches-trans r2 s))
        ]
        | inr plain ↦
            elim (Bool-cases ((lex_peek_char lex == b'$') && (lex_peek_char next == b'{'))) [
              | inl dollar ↦
                  let size = ap length (r2.same ∙ r.same) in
                  let (p, shut, inside, q) =
                    skip_braces_lem (fuel_for lex) 1 (lex_advance next) r2.valid
                      (omega (arith, size)) in
                  elim (Bool-cases shut) [
                    | inr open_end ↦ (
                      p,
                      open_braces,
                      rw (more, plain, dollar, inside, open_end),
                      Reaches-trans r (Reaches-trans r2 q),
                    )
                    | inl shut_end ↦
                        let (o, b, run, s) =
                          skip_template_lem fuel p q.valid
                            (enough_after fuel lex p w more (Reaches-trans r2 q) enough) in
                        (
                          o,
                          b,
                          rw (more, plain, dollar, inside, shut_end) run,
                          Reaches-trans r (Reaches-trans r2 (Reaches-trans q s)),
                        )
                  ]
              | inr no_dollar ↦ elim (Bool-cases (lex_peek_char lex == b'`')) [
                | inl end ↦ (next, closed, rw (more, plain, no_dollar, end), r)
                | inr inner ↦
                    let (o, b, run, s) =
                      skip_template_lem fuel next r.valid
                        (enough_after fuel lex next w more (Reaches-refl r.valid) enough) in
                    (o, b, rw (more, plain, no_dollar, inner) run, Reaches-trans r s)
              ]
            ]
      ]
]
