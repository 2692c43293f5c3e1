-- ===== src/Parser/Lexer/Bounds.antt =====
-- cando_lexer_next returns, and its token lies where it says.
use can_do.Base.{
  ℕ, zero, suc, ◌+◌, ◌-◌, ◌%◌, ◌^◌, ◌≤◌, ◌<◌, ◌≡◌, ◌≢◌, ◌⊎◌, inl, inr, refl, ap, ◌∙◌, ◌==◌, ltb,
  Bool, true, false, not, ◌&&◌, List, [], ◌∷◌, Option, none, some, arith, length, get_or,
  Bool-cases, take, drop,
}
use can_do.Parser.Token.{
  CandoTokenType, tok_eof, tok_error, tok_string_bt, tok_number, cando_keyword_type, tok_slash,
  tok_slash_assign, tok_dot, tok_vararg, tok_tilde, tok_pipe_op, tok_filter_op,
}
use can_do.Parser.Lexer.{
  LexMessage, CandoLexer, source_len, lex_peek_char, lex_peek_char2, lex_at_end, lex_advance,
  lex_matches, past, Start, Lexed, make_token, lex_error, fuel_for, is_digit, in_digits, in_space,
  in_line, in_name, skip_line_comment, lex_string, skip_template, Closing, closed, open_string,
  open_braces, lex_string_bt, lex_number, lex_ident, first_match, operator, lex_dot, lex_tilde,
  Round, produced, restart, lex_slash, unterminated_comment, unterminated_bt,
  unterminated_interpolation,
}
use can_do.Parser.Lexer.Scan.{
  newlines, line_start_of, step_line, step_start, IsAt, Reaches, Reaches-trans, Reaches-refl,
  advance-Reaches, advance_moves, advance_while_lem, digit_within, not_end_within, skip_block_lem,
  skip_string_lem, skip_template_lem,
}

-- The token lies behind `lex` in its source and ends where the lexer then stands; its line and column
-- are those of its first byte; only the end of the source has no byte.
pub record Lexes (lex : CandoLexer) (t : Lexed) : Type 0 where
  pub reach : Reaches lex t.lex
  pub behind : lex.pos ≤ t.token.start
  pub ends : t.token.start + t.token.length ≡ t.lex.pos
  pub line : t.token.line ≡ 1 + newlines lex.source t.token.start
  pub col : t.token.col ≡ t.token.start - line_start_of lex.source t.token.start + 1
  pub bytes :
      ((t.token.type_of ≡ tok_eof) × (t.token.start ≡ length lex.source) × (t.token.length ≡ 0))
      ⊎ (0 < t.token.length)

newlines_le : (source : List ℕ) (p : ℕ) → newlines source p ≤ p
unfolding newlines
newlines_le source zero = omega arith
newlines_le source (suc p) = let ih = newlines_le source p in ground (arith, ih)

line_start_le : (source : List ℕ) (p : ℕ) → line_start_of source p ≤ p
unfolding line_start_of
line_start_le source zero = omega arith
line_start_le source (suc p) = let ih = line_start_le source p in ground (arith, ih)

abbrev pub start_at : CandoLexer → Start
start_at o = record { pos = o.pos; line = o.line; line_start = o.line_start }

-- A match of a character other than a newline keeps count of the lines.
match-Reaches :
    (a : CandoLexer) (c : ℕ) → IsAt a → lex_matches a c ≡ true → c ≢ b'\n' → Reaches a (past a)
unfolding lex_matches
match-Reaches a c w hit plain =
    let e = step_line a.source a.pos in
    let f = step_start a.source a.pos in
    record {
      valid = record {
        within = ground (arith, hit);
        line_is = ground (arith, e, hit, plain, w.line_is);
        start_is = ground (arith, f, hit, plain, w.start_is);
      };
      same = refl;
      forth = omega arith;
    }

-- Alternatives without a newline.
unfoldable pub plain_alts : List (ℕ × CandoTokenType) → Bool
plain_alts [] = true
plain_alts ((c, t) ∷ more) = not (c == b'\n') && plain_alts more

unfoldable pub plain_operator : Option (List (ℕ × CandoTokenType) × CandoTokenType) → Bool
unfolding plain_alts
plain_operator none = true
plain_operator (some (alts, t)) = plain_alts alts

pub operator_plain : (c : ℕ) → plain_operator (operator c) ≡ true
unfolding operator plain_operator
operator_plain c = ground arith

name_within : (o : CandoLexer) → in_name o ≡ true → o.pos < length o.source
unfolding lex_at_end
name_within o e = ground (arith, e)

line_within : (o : CandoLexer) → in_line o ≡ true → o.pos < length o.source
unfolding lex_at_end
line_within o e = ground (arith, e)

pub space_within : (o : CandoLexer) → in_space o ≡ true → o.pos < length o.source
unfolding lex_at_end
space_within o e = ground (arith, e)

-- A token, once white space is skipped to `o`.
abbrev pub Yields : CandoLexer → Option Lexed → Type 0
Yields lex result = (t : Lexed) × (result ≡ some t) × Lexes lex t

abbrev pub Good : CandoLexer → Round → Type 0
Good lex (produced t) = Lexes lex t
Good lex (restart p) = Reaches lex p × (lex.pos < p.pos)

with_message :
    (p : CandoLexer) (msg : LexMessage) {a : CandoLexer}
    → Reaches a p
    → Reaches a (record p { error_msg = msg })
with_message p msg r = record {
  valid = record {
    within = r.valid.within;
    line_is = r.valid.line_is;
    start_is = r.valid.start_is;
  };
  same = r.same;
  forth = r.forth;
}

module _ (lex o : CandoLexer) (r : Reaches lex o) (small : length lex.source < 2 ^ 32 - 1) where
  line_here : o.line % 2 ^ 32 ≡ 1 + newlines lex.source o.pos
  line_here =
      let count = ap (λ (source : List ℕ). newlines source o.pos) r.same in
      omega (
        arith,
        r.valid.line_is,
        count,
        newlines_le lex.source o.pos,
        r.valid.within,
        ap length r.same,
        small,
      )

  col_here : (o.pos - o.line_start + 1) % 2 ^ 32 ≡ o.pos - line_start_of lex.source o.pos + 1
  col_here =
      let begin = ap (λ (source : List ℕ). line_start_of source o.pos) r.same in
      omega (arith, r.valid.start_is, begin, r.valid.within, ap length r.same, small)

  pub eof-Lexes : lex_at_end o ≡ true → Lexes lex (make_token o tok_eof (start_at o))
  unfolding lex_at_end
  eof-Lexes done =
      let size = ap length r.same in
      record {
        reach = r;
        behind = r.forth;
        ends = omega arith;
        line = line_here;
        col = col_here;
        bytes = inl (refl, ground (arith, done, size, r.valid.within), omega arith);
      }

  module _ (more : lex_at_end o ≡ false) where
    made-Lexes :
        (p : CandoLexer) (t : CandoTokenType)
        → Reaches (lex_advance o) p
        → Lexes lex (make_token p t (start_at o))
    made-Lexes p t q =
        let size = ap length r.same in
        let step = advance_moves o r.valid (not_end_within o more) in
        let back = ap length (q.same ∙ (advance-Reaches o r.valid).same) in
        record {
          reach = Reaches-trans r (Reaches-trans (advance-Reaches o r.valid) q);
          behind = r.forth;
          ends = omega (arith, q.forth, step, q.valid.within, back, size, small);
          line = line_here;
          col = col_here;
          bytes = inr (omega (arith, q.forth, step, q.valid.within, back, size, small));
        }

    pub error-Lexes :
        (p : CandoLexer) (msg : LexMessage)
        → Reaches (lex_advance o) p
        → Lexes lex (lex_error p (start_at o) msg)
    error-Lexes p msg q = made-Lexes (record p { error_msg = msg }) tok_error (with_message p msg q)

    abbrev pub here : CandoLexer
    here = lex_advance o

    here-IsAt : IsAt here
    here-IsAt = (advance-Reaches o r.valid).valid

    here_size : length here.source < fuel_for here + here.pos
    here_size = omega arith

    pub string-Yields :
        (quote : ℕ) (t : CandoTokenType) (msg : LexMessage)
        → Yields lex (lex_string quote t msg here (start_at o))
    unfolding lex_string
    string-Yields quote t msg =
        let (p, shut, run, q) = skip_string_lem quote (fuel_for here) here here-IsAt here_size in
        elim (Bool-cases shut) [
          | inl y ↦ (make_token p t (start_at o), rw (lex_string, run, y), made-Lexes p t q)
          | inr n ↦ (lex_error p (start_at o) msg, rw (lex_string, run, n), error-Lexes p msg q)
        ]

    template_end :
        (p : CandoLexer) (how : Closing)
        → skip_template (fuel_for here) here ≡ some (p, how)
        → Reaches here p
        → Yields lex (lex_string_bt here (start_at o))
    unfolding lex_string_bt
    template_end p closed run q = (
      make_token p tok_string_bt (start_at o),
      rw (lex_string_bt, run),
      made-Lexes p tok_string_bt q,
    )
    template_end p open_string run q = (
      lex_error p (start_at o) unterminated_bt,
      rw (lex_string_bt, run),
      error-Lexes p unterminated_bt q,
    )
    template_end p open_braces run q = (
      lex_error p (start_at o) unterminated_interpolation,
      rw (lex_string_bt, run),
      error-Lexes p unterminated_interpolation q,
    )

    pub template-Yields : Yields lex (lex_string_bt here (start_at o))
    template-Yields =
        let (p, how, run, q) = skip_template_lem (fuel_for here) here here-IsAt here_size in
        template_end p how run q

    pub number-Yields : Yields lex (lex_number here (start_at o))
    unfolding lex_number
    number-Yields =
        let (p, run, q, stop) =
          advance_while_lem in_digits digit_within (fuel_for here) here here-IsAt here_size in
        elim (Bool-cases ((lex_peek_char p == b'.') && is_digit (lex_peek_char2 p))) [
          | inr whole ↦ (
            make_token p tok_number (start_at o),
            rw (lex_number, run, whole),
            made-Lexes p tok_number q,
          )
          | inl point ↦
              let q2 = advance-Reaches p q.valid in
              let size = ap length q2.same in
              let (u, run2, q3, stop2) =
                advance_while_lem in_digits digit_within (fuel_for p) (lex_advance p) q2.valid
                  (omega (arith, size)) in
              (
                make_token u tok_number (start_at o),
                rw (lex_number, run, point, run2),
                made-Lexes u tok_number (Reaches-trans q (Reaches-trans q2 q3)),
              )
        ]

    pub ident-Yields : Yields lex (lex_ident here (start_at o))
    unfolding lex_ident
    ident-Yields =
        let (p, run, q, stop) =
          advance_while_lem in_name name_within (fuel_for here) here here-IsAt here_size in
        let t = cando_keyword_type (take (p.pos - o.pos) (drop o.pos p.source)) in
        (make_token p t (start_at o), rw (lex_ident, run), made-Lexes p t q)

    pub match-Lexes :
        (alts : List (ℕ × CandoTokenType)) (t : CandoTokenType)
        → plain_alts alts ≡ true
        → Lexes lex (first_match here alts t (start_at o))
    unfolding first_match plain_alts
    match-Lexes [] t plain = made-Lexes here t (Reaches-refl here-IsAt)
    match-Lexes ((c, longer) ∷ alts) t plain = elim (Bool-cases (lex_matches here c)) [
      | inl hit ↦ rw hit (
          made-Lexes (past here) longer
            (match-Reaches here c here-IsAt hit (ground (arith, plain))))
      | inr miss ↦ rw miss (match-Lexes alts t (ground (arith, plain)))
    ]

    two_more : Reaches here (lex_advance (lex_advance here))
    two_more =
        let q = advance-Reaches here here-IsAt in
        Reaches-trans q (advance-Reaches (lex_advance here) q.valid)

    pub dot-Lexes : Lexes lex (lex_dot here (start_at o))
    unfolding lex_dot
    dot-Lexes = elim (Bool-cases ((lex_peek_char here == b'.') && (lex_peek_char2 here == b'.'))) [
      | inl dots ↦ rw dots (made-Lexes (lex_advance (lex_advance here)) tok_vararg two_more)
      | inr one ↦ rw one (made-Lexes here tok_dot (Reaches-refl here-IsAt))
    ]

    pub tilde-Lexes : Lexes lex (lex_tilde here (start_at o))
    unfolding lex_tilde plain_alts
    tilde-Lexes =
        elim (Bool-cases (
          (lex_peek_char here == b'!')
          && (ltb (here.pos + 1) (source_len here)
              && (get_or here.source (here.pos + 1) 0 == b'>')))) [
                | inl filter ↦
                    rw filter (made-Lexes (lex_advance (lex_advance here)) tok_filter_op two_more)
                | inr other ↦ rw other (match-Lexes ((b'>', tok_pipe_op) ∷ []) tok_tilde refl)
              ]

    -- A round that skips a comment moves forward.
    skipped : (p : CandoLexer) → Reaches here p → Good lex (restart p)
    skipped p q =
        let step = advance_moves o r.valid (not_end_within o more) in
        (
          Reaches-trans r (Reaches-trans (advance-Reaches o r.valid) q),
          omega (arith, r.forth, step, q.forth),
        )

    pub slash-Good : (x : Round) × (lex_slash here (start_at o) ≡ some x) × Good lex x
    unfolding lex_slash skip_line_comment plain_alts
    slash-Good =
        let q1 = advance-Reaches here here-IsAt in
        let size = ap length q1.same in
        elim (Bool-cases (lex_peek_char here == b'/')) [
          | inl line ↦
              let (p, run, q, stop) =
                advance_while_lem in_line line_within (fuel_for (lex_advance here))
                  (lex_advance here) q1.valid (omega arith) in
              (
                restart p,
                rw (lex_slash, line) (rw (skip_line_comment, run)),
                skipped p (Reaches-trans q1 q),
              )
          | inr no_line ↦ elim (Bool-cases (lex_peek_char here == b'*')) [
            | inl star ↦
                let (p, shut, run, q) =
                  skip_block_lem (fuel_for here) (lex_advance here) q1.valid
                    (omega (arith, size)) in
                elim (Bool-cases shut) [
                  | inl y ↦ (
                    restart p,
                    rw (lex_slash, no_line, star, run, y),
                    skipped p (Reaches-trans q1 q),
                  )
                  | inr n ↦ (
                    produced (lex_error p (start_at o) unterminated_comment),
                    rw (lex_slash, no_line, star, run, n),
                    error-Lexes p unterminated_comment (Reaches-trans q1 q),
                  )
                ]
            | inr no_star ↦ (
              produced (first_match here ((b'=', tok_slash_assign) ∷ []) tok_slash (start_at o)),
              rw (lex_slash, no_line, no_star),
              match-Lexes ((b'=', tok_slash_assign) ∷ []) tok_slash refl,
            )
          ]
        ]
