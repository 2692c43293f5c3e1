-- ===== src/Parser/Lexer/Next.antt =====
-- cando_lexer_next: its rounds come to an end, with a token that lies where it says.
use can_do.Base.{
  ℕ, zero, suc, ◌+◌, ◌-◌, ◌^◌, ◌<◌, ◌≡◌, ◌⊎◌, inl, inr, refl, sym, ap, ◌∙◌, ◌==◌, false, ◌||◌, List,
  Option, none, some, arith, length, Bool-cases, Option-cases,
}
use mathlib.Core.Path.{subst}
use can_do.Parser.Token.{CandoTokenType, tok_string_dq, tok_string_sq, tok_eof}
use can_do.Parser.Lexer.{
  CandoLexer, Lexed, lex_at_end, lex_advance, lex_peek_char, make_token, lex_error, fuel_for,
  is_digit, in_space, first_match, operator, lex_dot, lex_tilde, Round, produced, restart, made,
  lex_rest, lex_round, lex_rounds, cando_lexer_next, cando_lexer_init, unexpected_character,
  unterminated_dq, unterminated_sq, is_alpha, lex_string_dq, lex_string_sq,
}
use can_do.Parser.Lexer.Scan.{
  newlines, line_start_of, IsAt, Reaches, Reaches-trans, Reaches-refl, advance-Reaches,
  advance_while_lem,
}
use can_do.Parser.Lexer.Bounds.{
  Lexes, start_at, Yields, Good, plain_operator, operator_plain, space_within, eof-Lexes,
  error-Lexes, string-Yields, template-Yields, number-Yields, ident-Yields, match-Lexes, dot-Lexes,
  tilde-Lexes, slash-Good,
}

made-Good :
    (lex : CandoLexer) (result : Option Lexed)
    → Yields lex result
    → (x : Round) × (made result ≡ some x) × Good lex x
made-Good lex result (t, e, l) = (produced t, ap made e, l)

module _ (lex o : CandoLexer) (r : Reaches lex o) (small : length lex.source < 2 ^ 32 - 1)
    (more : lex_at_end o ≡ false) where
  abbrev RestGood : ℕ → Type 0
  RestGood c = (x : Round) × (lex_rest c (lex_advance o) (start_at o) ≡ some x) × Good lex x

  operator_case :
      (c : ℕ) (alts : List (ℕ × CandoTokenType)) (t : CandoTokenType)
      → operator c ≡ some (alts, t)
      → RestGood c
  unfolding lex_rest plain_operator
  operator_case c alts t e = (
    produced (first_match (lex_advance o) alts t (start_at o)),
    rw (lex_rest, e),
    match-Lexes lex o r small more alts t (sym (ap plain_operator e) ∙ operator_plain c),
  )

  literal_case :
      (c : ℕ)
      → operator c ≡ none
      → (c == b'/') ≡ false
      → (c == b'.') ≡ false
      → (c == b'~') ≡ false
      → RestGood c
  unfolding lex_rest lex_string_dq lex_string_sq
  literal_case c e n1 n2 n3 = elim (Bool-cases (c == b'"')) [
    | inl y ↦
        let (x, run, g) =
          made-Good lex (lex_string_dq (lex_advance o) (start_at o))
            (string-Yields lex o r small more b'"' tok_string_dq unterminated_dq) in
        (x, rw (lex_rest, e, n1, n2, n3, y) run, g)
    | inr n4 ↦ elim (Bool-cases (c == b'\'')) [
      | inl y ↦
          let (x, run, g) =
            made-Good lex (lex_string_sq (lex_advance o) (start_at o))
              (string-Yields lex o r small more b'\'' tok_string_sq unterminated_sq) in
          (x, rw (lex_rest, e, n1, n2, n3, n4, y) run, g)
      | inr n5 ↦ elim (Bool-cases (c == b'`')) [
        | inl y ↦
            let (x, run, g) = made-Good lex _ (template-Yields lex o r small more) in
            (x, rw (lex_rest, e, n1, n2, n3, n4, n5, y) run, g)
        | inr n6 ↦ elim (Bool-cases (is_digit c)) [
          | inl y ↦
              let (x, run, g) = made-Good lex _ (number-Yields lex o r small more) in
              (x, rw (lex_rest, e, n1, n2, n3, n4, n5, n6, y) run, g)
          | inr n7 ↦ elim (Bool-cases (is_alpha c || (c == b'_'))) [
            | inl y ↦
                let (x, run, g) = made-Good lex _ (ident-Yields lex o r small more) in
                (x, rw (lex_rest, e, n1, n2, n3, n4, n5, n6, n7, y) run, g)
            | inr n8 ↦
                let msg = unexpected_character c o.line in
                (
                  produced (lex_error (lex_advance o) (start_at o) msg),
                  rw (lex_rest, e, n1, n2, n3, n4, n5, n6, n7, n8),
                  error-Lexes lex o r small more (lex_advance o) msg
                      (Reaches-refl (advance-Reaches o r.valid).valid),
                )
          ]
        ]
      ]
    ]
  ]

  other_case : (c : ℕ) → operator c ≡ none → RestGood c
  unfolding lex_rest lex_string_dq lex_string_sq
  other_case c e = elim (Bool-cases (c == b'/')) [
    | inl y1 ↦ let (x, run, g) = slash-Good lex o r small more in (x, rw (lex_rest, e, y1) run, g)
    | inr n1 ↦ elim (Bool-cases (c == b'.')) [
      | inl y2 ↦ (
        produced (lex_dot (lex_advance o) (start_at o)),
        rw (lex_rest, e, n1, y2),
        dot-Lexes lex o r small more,
      )
      | inr n2 ↦ elim (Bool-cases (c == b'~')) [
        | inl y3 ↦ (
          produced (lex_tilde (lex_advance o) (start_at o)),
          rw (lex_rest, e, n1, n2, y3),
          tilde-Lexes lex o r small more,
        )
        | inr n3 ↦ literal_case c e n1 n2 n3
      ]
    ]
  ]

  pub rest-Good : (c : ℕ) → RestGood c
  rest-Good c = elim (Option-cases (operator c)) [
    | inl e ↦ other_case c e
    | inr ((alts, t), e) ↦ operator_case c alts t e
  ]

round-Good :
    (lex : CandoLexer)
    → IsAt lex
    → length lex.source < 2 ^ 32 - 1
    → (x : Round) × (lex_round lex ≡ some x) × Good lex x
unfolding lex_round
round-Good lex w small =
    let (o, run, r, stop) =
      advance_while_lem in_space space_within (fuel_for lex) lex w (omega arith) in
    elim (Bool-cases (lex_at_end o)) [
      | inl done ↦ (
        produced (make_token o tok_eof (start_at o)),
        rw (lex_round, run, done),
        eof-Lexes lex o r small done,
      )
      | inr more ↦
          let (x, go, g) = rest-Good lex o r small more (lex_peek_char o) in
          (x, rw (lex_round, run, more) go, g)
    ]

Lexes-trans : (a b : CandoLexer) (t : Lexed) → Reaches a b → Lexes b t → Lexes a t
Lexes-trans a b t r l = record {
  reach = Reaches-trans r l.reach;
  behind = omega (arith, r.forth, l.behind);
  ends = l.ends;
  line = l.line ∙ ap (λ (source : List ℕ). 1 + newlines source t.token.start) r.same;
  col =
      l.col
      ∙ ap (λ (source : List ℕ). t.token.start - line_start_of source t.token.start + 1) r.same;
  bytes =
      subst
        (λ (source : List ℕ).
          ((t.token.type_of ≡ tok_eof) × (t.token.start ≡ length source) × (t.token.length ≡ 0))
          ⊎ (0 < t.token.length))
        r.same l.bytes;
}

-- The rest of the rounds, from what one round came to.
next_round :
    (fuel : ℕ) (lex : CandoLexer) (x : Round)
    → lex_round lex ≡ some x
    → Good lex x
    → length lex.source < 2 ^ 32 - 1
    → length lex.source < suc fuel + lex.pos
    → ((o : CandoLexer)
        → IsAt o
        → length o.source < 2 ^ 32 - 1
        → length o.source < fuel + o.pos
        → (t : Lexed) × (lex_rounds fuel o ≡ some t) × Lexes o t)
    → (t : Lexed) × (lex_rounds (suc fuel) lex ≡ some t) × Lexes lex t
unfolding lex_rounds
next_round fuel lex (produced t) run l small enough later = (t, rw (lex_rounds, run), l)
next_round fuel lex (restart p) run (r, ahead) small enough later =
    let size = ap length r.same in
    let (t, go, l) =
      later p r.valid (omega (arith, size, small)) (omega (arith, size, ahead, enough)) in
    (t, rw (lex_rounds, run) go, Lexes-trans lex p t r l)

rounds-Lexes :
    (fuel : ℕ) (lex : CandoLexer)
    → IsAt lex
    → length lex.source < 2 ^ 32 - 1
    → length lex.source < fuel + lex.pos
    → (t : Lexed) × (lex_rounds fuel lex ≡ some t) × Lexes lex t
unfolding lex_rounds
rounds-Lexes zero lex w small enough = absurd (omega (arith, enough, w.within))
rounds-Lexes (suc fuel) lex w small enough =
    let (x, run, g) = round-Good lex w small in
    next_round fuel lex x run g small enough (rounds-Lexes fuel)

-- From a cursor within a source of fewer than 2^32 - 1 bytes, whose line is counted right,
-- cando_lexer_next returns; the token starts behind the cursor and ends where the lexer then stands,
-- within the source; its line and column are those of its first byte, the line is still counted right,
-- and it has a byte unless it is the end of the source.
pub next-Lexes :
    (lex : CandoLexer)
    → IsAt lex
    → length lex.source < 2 ^ 32 - 1
    → (t : Lexed) × (cando_lexer_next lex ≡ some t) × Lexes lex t
unfolding cando_lexer_next
next-Lexes lex w small = rounds-Lexes (fuel_for lex) lex w small (omega arith)

-- A new lexer stands at the start of its source.
pub init-IsAt : (source : List ℕ) → IsAt (cando_lexer_init source)
unfolding cando_lexer_init newlines line_start_of
init-IsAt source = record { within = omega arith; line_is = refl; start_is = refl }
