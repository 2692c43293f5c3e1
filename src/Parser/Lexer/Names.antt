-- ===== src/Parser/Lexer/Names.antt =====
-- The printed name of a keyword or an operator is lexed as that token.
use can_do.Base.{ℕ, ◌≡◌, refl, Bool, true, false, List, some, length}
use can_do.Parser.Token.{
  CandoTokenType, cando_token_type_name, cando_keyword_type, tok_number, tok_string_dq,
  tok_string_sq, tok_string_bt, tok_ident, tok_if, tok_else, tok_while, tok_for, tok_function,
  tok_class, tok_return, tok_throw, tok_try, tok_catch, tok_finaly, tok_const, tok_var, tok_global,
  tok_static, tok_private, tok_async, tok_await, tok_thread, tok_null_kw, tok_true_kw, tok_false_kw,
  tok_in, tok_of, tok_over, tok_continue, tok_break, tok_pipe_kw, tok_pipe_op, tok_filter_op,
  tok_range_asc, tok_range_desc, tok_fluent, tok_vararg, tok_fat_arrow, tok_and, tok_or, tok_eq,
  tok_neq, tok_leq, tok_geq, tok_lshift, tok_rshift, tok_bitxor, tok_plus_assign, tok_minus_assign,
  tok_star_assign, tok_slash_assign, tok_percent_assign, tok_caret_assign, tok_incr, tok_decr,
  tok_plus, tok_minus, tok_star, tok_slash, tok_percent, tok_caret, tok_amp, tok_bitor, tok_lt,
  tok_gt, tok_assign, tok_bang, tok_tilde, tok_dot, tok_hash, tok_lparen, tok_rparen, tok_lbrace,
  tok_rbrace, tok_lbracket, tok_rbracket, tok_semi, tok_comma, tok_colon, tok_eof, tok_error,
}
use can_do.Parser.Lexer.{
  Lexed, lex_peek_char, lex_peek_char2, lex_at_end, cando_lexer_next, cando_lexer_init, is_space,
  is_digit, is_alpha, is_name,
}

-- The tokens that are always written the same: keywords and operators.
unfoldable pub has_fixed_text : CandoTokenType → Bool
has_fixed_text tok_number = false
has_fixed_text tok_string_dq = false
has_fixed_text tok_string_sq = false
has_fixed_text tok_string_bt = false
has_fixed_text tok_ident = false
has_fixed_text tok_eof = false
has_fixed_text tok_error = false
has_fixed_text _ = true

-- The source `text` starts with a token of type `t` that takes all of it.
abbrev pub LexesAs : List ℕ → CandoTokenType → Type 0
LexesAs text t =
    (r : Lexed) × (cando_lexer_next (cando_lexer_init text) ≡ some r)
    × (r.token.type_of ≡ t)
    × (r.token.start ≡ 0)
    × (r.token.length ≡ length text)

-- The name that cando_token_type_name gives a keyword or an operator is, as a source, that one token.
pub name-LexesAs :
    (t : CandoTokenType) → has_fixed_text t ≡ true → LexesAs (cando_token_type_name t) t
unfolding has_fixed_text cando_token_type_name cando_lexer_next cando_lexer_init lex_peek_char
    lex_peek_char2 lex_at_end cando_keyword_type is_space is_digit is_alpha is_name
name-LexesAs tok_number e = absurd (cc)
name-LexesAs tok_string_dq e = absurd (cc)
name-LexesAs tok_string_sq e = absurd (cc)
name-LexesAs tok_string_bt e = absurd (cc)
name-LexesAs tok_ident e = absurd (cc)
name-LexesAs tok_if e = (_, refl, refl, refl, refl)
name-LexesAs tok_else e = (_, refl, refl, refl, refl)
name-LexesAs tok_while e = (_, refl, refl, refl, refl)
name-LexesAs tok_for e = (_, refl, refl, refl, refl)
name-LexesAs tok_function e = (_, refl, refl, refl, refl)
name-LexesAs tok_class e = (_, refl, refl, refl, refl)
name-LexesAs tok_return e = (_, refl, refl, refl, refl)
name-LexesAs tok_throw e = (_, refl, refl, refl, refl)
name-LexesAs tok_try e = (_, refl, refl, refl, refl)
name-LexesAs tok_catch e = (_, refl, refl, refl, refl)
name-LexesAs tok_finaly e = (_, refl, refl, refl, refl)
name-LexesAs tok_const e = (_, refl, refl, refl, refl)
name-LexesAs tok_var e = (_, refl, refl, refl, refl)
name-LexesAs tok_global e = (_, refl, refl, refl, refl)
name-LexesAs tok_static e = (_, refl, refl, refl, refl)
name-LexesAs tok_private e = (_, refl, refl, refl, refl)
name-LexesAs tok_async e = (_, refl, refl, refl, refl)
name-LexesAs tok_await e = (_, refl, refl, refl, refl)
name-LexesAs tok_thread e = (_, refl, refl, refl, refl)
name-LexesAs tok_null_kw e = (_, refl, refl, refl, refl)
name-LexesAs tok_true_kw e = (_, refl, refl, refl, refl)
name-LexesAs tok_false_kw e = (_, refl, refl, refl, refl)
name-LexesAs tok_in e = (_, refl, refl, refl, refl)
name-LexesAs tok_of e = (_, refl, refl, refl, refl)
name-LexesAs tok_over e = (_, refl, refl, refl, refl)
name-LexesAs tok_continue e = (_, refl, refl, refl, refl)
name-LexesAs tok_break e = (_, refl, refl, refl, refl)
name-LexesAs tok_pipe_kw e = (_, refl, refl, refl, refl)
name-LexesAs tok_pipe_op e = (_, refl, refl, refl, refl)
name-LexesAs tok_filter_op e = (_, refl, refl, refl, refl)
name-LexesAs tok_range_asc e = (_, refl, refl, refl, refl)
name-LexesAs tok_range_desc e = (_, refl, refl, refl, refl)
name-LexesAs tok_fluent e = (_, refl, refl, refl, refl)
name-LexesAs tok_vararg e = (_, refl, refl, refl, refl)
name-LexesAs tok_fat_arrow e = (_, refl, refl, refl, refl)
name-LexesAs tok_and e = (_, refl, refl, refl, refl)
name-LexesAs tok_or e = (_, refl, refl, refl, refl)
name-LexesAs tok_eq e = (_, refl, refl, refl, refl)
name-LexesAs tok_neq e = (_, refl, refl, refl, refl)
name-LexesAs tok_leq e = (_, refl, refl, refl, refl)
name-LexesAs tok_geq e = (_, refl, refl, refl, refl)
name-LexesAs tok_lshift e = (_, refl, refl, refl, refl)
name-LexesAs tok_rshift e = (_, refl, refl, refl, refl)
name-LexesAs tok_bitxor e = (_, refl, refl, refl, refl)
name-LexesAs tok_plus_assign e = (_, refl, refl, refl, refl)
name-LexesAs tok_minus_assign e = (_, refl, refl, refl, refl)
name-LexesAs tok_star_assign e = (_, refl, refl, refl, refl)
name-LexesAs tok_slash_assign e = (_, refl, refl, refl, refl)
name-LexesAs tok_percent_assign e = (_, refl, refl, refl, refl)
name-LexesAs tok_caret_assign e = (_, refl, refl, refl, refl)
name-LexesAs tok_incr e = (_, refl, refl, refl, refl)
name-LexesAs tok_decr e = (_, refl, refl, refl, refl)
name-LexesAs tok_plus e = (_, refl, refl, refl, refl)
name-LexesAs tok_minus e = (_, refl, refl, refl, refl)
name-LexesAs tok_star e = (_, refl, refl, refl, refl)
name-LexesAs tok_slash e = (_, refl, refl, refl, refl)
name-LexesAs tok_percent e = (_, refl, refl, refl, refl)
name-LexesAs tok_caret e = (_, refl, refl, refl, refl)
name-LexesAs tok_amp e = (_, refl, refl, refl, refl)
name-LexesAs tok_bitor e = (_, refl, refl, refl, refl)
name-LexesAs tok_lt e = (_, refl, refl, refl, refl)
name-LexesAs tok_gt e = (_, refl, refl, refl, refl)
name-LexesAs tok_assign e = (_, refl, refl, refl, refl)
name-LexesAs tok_bang e = (_, refl, refl, refl, refl)
name-LexesAs tok_tilde e = (_, refl, refl, refl, refl)
name-LexesAs tok_dot e = (_, refl, refl, refl, refl)
name-LexesAs tok_hash e = (_, refl, refl, refl, refl)
name-LexesAs tok_lparen e = (_, refl, refl, refl, refl)
name-LexesAs tok_rparen e = (_, refl, refl, refl, refl)
name-LexesAs tok_lbrace e = (_, refl, refl, refl, refl)
name-LexesAs tok_rbrace e = (_, refl, refl, refl, refl)
name-LexesAs tok_lbracket e = (_, refl, refl, refl, refl)
name-LexesAs tok_rbracket e = (_, refl, refl, refl, refl)
name-LexesAs tok_semi e = (_, refl, refl, refl, refl)
name-LexesAs tok_comma e = (_, refl, refl, refl, refl)
name-LexesAs tok_colon e = (_, refl, refl, refl, refl)
name-LexesAs tok_eof e = absurd (cc)
name-LexesAs tok_error e = absurd (cc)
