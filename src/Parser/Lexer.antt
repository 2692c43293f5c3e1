-- ===== src/Parser/Lexer.antt =====
-- source/parser/lexer.c: the scanner. The source is a list of bytes, a position an index into it; a token's
-- start is a position instead of a pointer. Each loop runs on fuel, one round more than the source has
-- bytes; `none` is a loop that is still running when its fuel is spent. Line and column of a token are 32
-- bits wide. The messages are constructors.
pub mod Scan
pub mod Bounds
pub mod Next
pub mod Names
mod Tests
use can_do.Base.{
  ℕ, zero, suc, ◌+◌, ◌-◌, ◌%◌, ◌^◌, ◌==◌, ltb, leb, if◌then◌else◌, Bool, true, false, not, ◌&&◌,
  ◌||◌, List, [], ◌∷◌, Option, none, some, length, get_or, take, drop,
}
use can_do.Parser.Token.{
  CandoTokenType, CandoToken, is_upper, is_lower, cando_keyword_type, tok_number, tok_string_dq,
  tok_string_sq, tok_string_bt, tok_error, tok_eof, tok_lparen, tok_rparen, tok_lbrace, tok_rbrace,
  tok_lbracket, tok_rbracket, tok_semi, tok_comma, tok_hash, tok_caret, tok_caret_assign,
  tok_percent, tok_percent_assign, tok_star, tok_star_assign, tok_slash, tok_slash_assign, tok_incr,
  tok_plus_assign, tok_plus, tok_decr, tok_minus_assign, tok_range_asc, tok_minus, tok_leq,
  tok_lshift, tok_range_desc, tok_lt, tok_geq, tok_rshift, tok_gt, tok_eq, tok_fat_arrow,
  tok_assign, tok_neq, tok_bang, tok_and, tok_amp, tok_or, tok_bitxor, tok_bitor, tok_fluent,
  tok_colon, tok_vararg, tok_dot, tok_filter_op, tok_pipe_op, tok_tilde,
}

pub data LexMessage : Type 0 where
  no_message unterminated_comment unterminated_dq unterminated_sq : LexMessage
  unterminated_interpolation unterminated_bt : LexMessage
  unexpected_character : ℕ → ℕ → LexMessage

pub record CandoLexer : Type 0 where
  pub source : List ℕ
  pub pos : ℕ
  pub line : ℕ
  pub line_start : ℕ
  pub error_msg : LexMessage

abbrev pub source_len : CandoLexer → ℕ
source_len lex = length lex.source

unfoldable pub lex_peek_char : CandoLexer → ℕ
lex_peek_char lex = if leb (source_len lex) lex.pos then 0 else get_or lex.source lex.pos 0

unfoldable pub lex_peek_char2 : CandoLexer → ℕ
lex_peek_char2 lex =
    if leb (source_len lex) (lex.pos + 1) then 0 else get_or lex.source (lex.pos + 1) 0

unfoldable pub lex_at_end : CandoLexer → Bool
lex_at_end lex = leb (source_len lex) lex.pos

-- The character is that of lex_peek_char before the call.
unfoldable pub lex_advance : CandoLexer → CandoLexer
lex_advance lex =
    if leb (source_len lex) lex.pos
    then lex
    else if get_or lex.source lex.pos 0 == b'\n'
    then record lex { pos = lex.pos + 1; line = lex.line + 1; line_start = lex.pos + 1 }
    else record lex { pos = lex.pos + 1 }

-- The next character is `expected`; then the lexer behind it.
unfoldable pub lex_matches : CandoLexer → ℕ → Bool
lex_matches lex expected =
    not (leb (source_len lex) lex.pos) && (get_or lex.source lex.pos 0 == expected)

abbrev pub past : CandoLexer → CandoLexer
past lex = record lex { pos = lex.pos + 1 }

-- Where a token starts.
pub record Start : Type 0 where
  pub pos : ℕ
  pub line : ℕ
  pub line_start : ℕ

pub record Lexed : Type 0 where
  pub token : CandoToken
  pub lex : CandoLexer

abbrev pub make_token : CandoLexer → CandoTokenType → Start → Lexed
make_token lex t start = record {
  token = record {
    type_of = t;
    start = start.pos;
    length = (lex.pos - start.pos) % 2 ^ 32;
    line = start.line % 2 ^ 32;
    col = (start.pos - start.line_start + 1) % 2 ^ 32;
  };
  lex = lex;
}

abbrev pub lex_error : CandoLexer → Start → LexMessage → Lexed
lex_error lex start msg = make_token (record lex { error_msg = msg }) tok_error start

-- `while (test(lex)) lex_advance(lex);`
unfoldable pub advance_while : (CandoLexer → Bool) → ℕ → CandoLexer → Option CandoLexer
advance_while test zero lex = none
advance_while test (suc fuel) lex =
    let rest = advance_while test fuel (lex_advance lex) in if test lex then rest else some lex

unfoldable pub is_space : ℕ → Bool
is_space c = (c == b' ') || (leb 9 c && leb c 13)

unfoldable pub is_digit : ℕ → Bool
is_digit c = leb b'0' c && leb c b'9'

unfoldable pub is_alpha : ℕ → Bool
unfolding is_upper is_lower
is_alpha c = is_upper c || is_lower c

unfoldable pub is_name : ℕ → Bool
unfolding is_alpha is_digit
is_name c = is_alpha c || (is_digit c || (c == b'_'))

abbrev pub fuel_for : CandoLexer → ℕ
fuel_for lex = suc (source_len lex)

abbrev pub in_space : CandoLexer → Bool
in_space lex = not (lex_at_end lex) && is_space (lex_peek_char lex)

abbrev pub in_line : CandoLexer → Bool
in_line lex = not (lex_at_end lex) && not (lex_peek_char lex == b'\n')

unfoldable pub skip_line_comment : CandoLexer → Option CandoLexer
unfolding advance_while
skip_line_comment lex = advance_while in_line (fuel_for lex) lex

-- The loop of skip_block_comment, with whether the comment is closed.
unfoldable pub skip_block : ℕ → CandoLexer → Option (CandoLexer × Bool)
skip_block zero lex = none
skip_block (suc fuel) lex =
    let next = lex_advance lex in
    let rest = skip_block fuel next in
    if lex_at_end lex
    then some (lex, false)
    else if (lex_peek_char lex == b'*') && (lex_peek_char next == b'/')
    then some (lex_advance next, true)
    else rest

-- The loop that lex_string_dq and lex_string_sq share, with whether the string is closed.
unfoldable pub skip_string : ℕ → ℕ → CandoLexer → Option (CandoLexer × Bool)
skip_string quote zero lex = none
skip_string quote (suc fuel) lex =
    let next = lex_advance lex in
    let escaped = skip_string quote fuel (lex_advance next) in
    let rest = skip_string quote fuel next in
    if lex_at_end lex
    then some (lex, false)
    else if lex_peek_char lex == b'\\'
    then (if lex_at_end next then some (next, false) else escaped)
    else if lex_peek_char lex == quote
    then some (next, true)
    else rest

unfoldable pub lex_string : ℕ → CandoTokenType → LexMessage → CandoLexer → Start → Option Lexed
unfolding skip_string
lex_string quote t msg lex start = elim (skip_string quote (fuel_for lex) lex) [
  | none ↦ none
  | some (o, true) ↦ some (make_token o t start)
  | some (o, false) ↦ some (lex_error o start msg)
]

unfoldable pub lex_string_dq : CandoLexer → Start → Option Lexed
unfolding lex_string
lex_string_dq = lex_string b'"' tok_string_dq unterminated_dq

unfoldable pub lex_string_sq : CandoLexer → Start → Option Lexed
unfolding lex_string
lex_string_sq = lex_string b'\'' tok_string_sq unterminated_sq

-- The loop past an interpolation, at a depth of braces, with whether it is closed.
unfoldable pub skip_braces : ℕ → ℕ → CandoLexer → Option (CandoLexer × Bool)
skip_braces fuel zero lex = some (lex, true)
skip_braces zero (suc depth) lex = none
skip_braces (suc fuel) (suc depth) lex =
    let c = lex_peek_char lex in
    let rest =
      skip_braces fuel
        (if c == b'{' then suc (suc depth) else if c == b'}' then depth else suc depth)
        (lex_advance lex) in
    if lex_at_end lex then some (lex, false) else rest

pub data Closing : Type 0 where
  closed open_string open_braces : Closing

unfoldable pub skip_template : ℕ → CandoLexer → Option (CandoLexer × Closing)
unfolding skip_braces
skip_template zero lex = none
skip_template (suc fuel) lex =
    let next = lex_advance lex in
    let inner = skip_braces (fuel_for lex) 1 (lex_advance next) in
    let escaped = skip_template fuel (lex_advance next) in
    let rest = skip_template fuel next in
    if lex_at_end lex
    then some (lex, open_string)
    else if lex_peek_char lex == b'\\'
    then (if lex_at_end next then some (next, open_string) else escaped)
    else if (lex_peek_char lex == b'$') && (lex_peek_char next == b'{')
    then (elim inner [
      | none ↦ none
      | some (o, false) ↦ some (o, open_braces)
      | some (o, true) ↦ skip_template fuel o
    ])
    else if lex_peek_char lex == b'`'
    then some (next, closed)
    else rest

unfoldable pub lex_string_bt : CandoLexer → Start → Option Lexed
unfolding skip_template
lex_string_bt lex start = elim (skip_template (fuel_for lex) lex) [
  | none ↦ none
  | some (o, closed) ↦ some (make_token o tok_string_bt start)
  | some (o, open_string) ↦ some (lex_error o start unterminated_bt)
  | some (o, open_braces) ↦ some (lex_error o start unterminated_interpolation)
]

abbrev pub in_digits : CandoLexer → Bool
in_digits lex = is_digit (lex_peek_char lex)

unfoldable pub lex_number : CandoLexer → Start → Option Lexed
unfolding advance_while
lex_number lex start = elim (advance_while in_digits (fuel_for lex) lex) [
  | none ↦ none
  | some o ↦
      if (lex_peek_char o == b'.') && is_digit (lex_peek_char2 o)
      then (elim (advance_while in_digits (fuel_for o) (lex_advance o)) [
        | none ↦ none
        | some p ↦ some (make_token p tok_number start)
      ])
      else some (make_token o tok_number start)
]

abbrev pub in_name : CandoLexer → Bool
in_name lex = not (lex_at_end lex) && is_name (lex_peek_char lex)

unfoldable pub lex_ident : CandoLexer → Start → Option Lexed
unfolding advance_while cando_keyword_type
lex_ident lex start = elim (advance_while in_name (fuel_for lex) lex) [
  | none ↦ none
  | some o ↦
      some (
        make_token o (cando_keyword_type (take (o.pos - start.pos) (drop start.pos o.source)))
          start)
]

-- `if (lex_match(lex, c)) return t;` for each of the pairs, and the type otherwise.
unfoldable pub first_match : CandoLexer → List (ℕ × CandoTokenType) → CandoTokenType → Start → Lexed
unfolding lex_matches
first_match lex [] t start = make_token lex t start
first_match lex ((c, longer) ∷ more) t start =
    if lex_matches lex c then make_token (past lex) longer start else first_match lex more t start

-- The operators whose cases are such matches, by their first character.
unfoldable pub operator : ℕ → Option (List (ℕ × CandoTokenType) × CandoTokenType)
operator c =
    if c == b'('
    then some ([], tok_lparen)
    else if c == b')'
    then some ([], tok_rparen)
    else if c == b'{'
    then some ([], tok_lbrace)
    else if c == b'}'
    then some ([], tok_rbrace)
    else if c == b'['
    then some ([], tok_lbracket)
    else if c == b']'
    then some ([], tok_rbracket)
    else if c == b';'
    then some ([], tok_semi)
    else if c == b','
    then some ([], tok_comma)
    else if c == b'#'
    then some ([], tok_hash)
    else if c == b'^'
    then some ((b'=', tok_caret_assign) ∷ [], tok_caret)
    else if c == b'%'
    then some ((b'=', tok_percent_assign) ∷ [], tok_percent)
    else if c == b'*'
    then some ((b'=', tok_star_assign) ∷ [], tok_star)
    else if c == b'+'
    then some ((b'+', tok_incr) ∷ (b'=', tok_plus_assign) ∷ [], tok_plus)
    else if c == b'-'
    then some ((b'-', tok_decr) ∷ (b'=', tok_minus_assign) ∷ (b'>', tok_range_asc) ∷ [], tok_minus)
    else if c == b'<'
    then some ((b'=', tok_leq) ∷ (b'<', tok_lshift) ∷ (b'-', tok_range_desc) ∷ [], tok_lt)
    else if c == b'>'
    then some ((b'=', tok_geq) ∷ (b'>', tok_rshift) ∷ [], tok_gt)
    else if c == b'='
    then some ((b'=', tok_eq) ∷ (b'>', tok_fat_arrow) ∷ [], tok_assign)
    else if c == b'!'
    then some ((b'=', tok_neq) ∷ [], tok_bang)
    else if c == b'&'
    then some ((b'&', tok_and) ∷ [], tok_amp)
    else if c == b'|'
    then some ((b'|', tok_or) ∷ (b'&', tok_bitxor) ∷ [], tok_bitor)
    else if c == b':'
    then some ((b':', tok_fluent) ∷ [], tok_colon)
    else none

unfoldable pub lex_dot : CandoLexer → Start → Lexed
lex_dot lex start =
    if (lex_peek_char lex == b'.') && (lex_peek_char2 lex == b'.')
    then make_token (lex_advance (lex_advance lex)) tok_vararg start
    else make_token lex tok_dot start

unfoldable pub lex_tilde : CandoLexer → Start → Lexed
unfolding first_match
lex_tilde lex start =
    if (lex_peek_char lex == b'!')
      && (ltb (lex.pos + 1) (source_len lex) && (get_or lex.source (lex.pos + 1) 0 == b'>'))
    then make_token (lex_advance (lex_advance lex)) tok_filter_op start
    else first_match lex ((b'>', tok_pipe_op) ∷ []) tok_tilde start

-- One round of cando_lexer_next: a token, or a comment that was skipped.
pub data Round : Type 0 where
  produced : Lexed → Round
  restart : CandoLexer → Round

unfoldable pub lex_slash : CandoLexer → Start → Option Round
unfolding skip_line_comment skip_block first_match
lex_slash lex start =
    if lex_peek_char lex == b'/'
    then (elim (skip_line_comment (lex_advance lex)) [ none ↦ none | some o ↦ some (restart o) ])
    else if lex_peek_char lex == b'*'
    then (elim (skip_block (fuel_for lex) (lex_advance lex)) [
      | none ↦ none
      | some (o, true) ↦ some (restart o)
      | some (o, false) ↦ some (produced (lex_error o start unterminated_comment))
    ])
    else some (produced (first_match lex ((b'=', tok_slash_assign) ∷ []) tok_slash start))

abbrev pub made : Option Lexed → Option Round
made none = none
made (some t) = some (produced t)

-- The token that starts with `c`, which has been consumed.
unfoldable pub lex_rest : ℕ → CandoLexer → Start → Option Round
unfolding operator first_match lex_slash lex_dot lex_tilde lex_string_dq lex_string_sq lex_string_bt
    lex_number lex_ident
lex_rest c lex start = elim (operator c) [
  | some (longer, t) ↦ some (produced (first_match lex longer t start))
  | none ↦
      if c == b'/'
      then lex_slash lex start
      else if c == b'.'
      then some (produced (lex_dot lex start))
      else if c == b'~'
      then some (produced (lex_tilde lex start))
      else if c == b'"'
      then made (lex_string_dq lex start)
      else if c == b'\''
      then made (lex_string_sq lex start)
      else if c == b'`'
      then made (lex_string_bt lex start)
      else if is_digit c
      then made (lex_number lex start)
      else if is_alpha c || (c == b'_')
      then made (lex_ident lex start)
      else some (produced (lex_error lex start (unexpected_character c start.line)))
]

-- One round: white space, then the end or a token.
unfoldable pub lex_round : CandoLexer → Option Round
unfolding advance_while lex_rest lex_advance
lex_round lex = elim (advance_while in_space (fuel_for lex) lex) [
  | none ↦ none
  | some o ↦
      let start : Start = record { pos = o.pos; line = o.line; line_start = o.line_start } in
      if lex_at_end o
      then some (produced (make_token o tok_eof start))
      else lex_rest (lex_peek_char o) (lex_advance o) start
]

-- The rounds of cando_lexer_next.
unfoldable pub lex_rounds : ℕ → CandoLexer → Option Lexed
unfolding lex_round
lex_rounds zero lex = none
lex_rounds (suc fuel) lex = elim (lex_round lex) [
  | none ↦ none
  | some (produced t) ↦ some t
  | some (restart o) ↦ lex_rounds fuel o
]

unfoldable pub cando_lexer_next : CandoLexer → Option Lexed
unfolding lex_rounds
cando_lexer_next lex = lex_rounds (fuel_for lex) lex

unfoldable pub cando_lexer_init : List ℕ → CandoLexer
cando_lexer_init source = record {
  source = source;
  pos = 0;
  line = 1;
  line_start = 0;
  error_msg = no_message;
}

unfoldable pub cando_lexer_peek : CandoLexer → Option Lexed
unfolding cando_lexer_next
cando_lexer_peek lex = elim (cando_lexer_next lex) [
  | none ↦ none
  | some t ↦ some (record t {
    lex = record t.lex {
      pos = lex.pos;
      line = lex.line;
      line_start = lex.line_start;
      error_msg = lex.error_msg;
    };
  })
]

-- The message of the last error, if any.
unfoldable pub cando_lexer_error_msg : CandoLexer → Option LexMessage
cando_lexer_error_msg lex = elim lex.error_msg [ no_message ↦ none | msg ↦ some msg ]
