-- ===== src/Parser/Token.antt =====
-- source/parser/token.h and the tables at the top of source/parser/lexer.c: token types, their names, and
-- the keywords. A text is the list of its bytes.
pub mod Keywords
mod Tests
use can_do.Base.{
  ℕ, zero, suc, ◌+◌, ◌-◌, ◌==◌, leb, if◌then◌else◌, Bool, true, false, ◌&&◌, ◌||◌, List, [], ◌∷◌,
  Option, none, some,
}
use can_do.Base.Text.{codes}

-- Constructors are the enumerators without TOK_COUNT, which only counts them.
pub data CandoTokenType : Type 0 where
  tok_number tok_string_dq tok_string_sq tok_string_bt tok_ident tok_if tok_else tok_while tok_for
        tok_function tok_class tok_return tok_throw tok_try tok_catch tok_finaly tok_const tok_var
        tok_global tok_static tok_private tok_async tok_await tok_thread tok_null_kw tok_true_kw
        tok_false_kw tok_in tok_of tok_over tok_continue tok_break tok_pipe_kw tok_pipe_op
        tok_filter_op tok_range_asc tok_range_desc tok_fluent tok_vararg tok_fat_arrow tok_and
        tok_or tok_eq tok_neq tok_leq tok_geq tok_lshift tok_rshift tok_bitxor tok_plus_assign
        tok_minus_assign tok_star_assign tok_slash_assign tok_percent_assign tok_caret_assign
        tok_incr tok_decr tok_plus tok_minus tok_star tok_slash tok_percent tok_caret tok_amp
        tok_bitor tok_lt tok_gt tok_assign tok_bang tok_tilde tok_dot tok_hash tok_lparen tok_rparen
        tok_lbrace tok_rbrace tok_lbracket tok_rbracket tok_semi tok_comma tok_colon tok_eof
        tok_error :
      CandoTokenType

unfoldable pub cando_token_type_name : CandoTokenType → List ℕ
cando_token_type_name tok_number = codes "NUMBER"
cando_token_type_name tok_string_dq = codes "STRING_DQ"
cando_token_type_name tok_string_sq = codes "STRING_SQ"
cando_token_type_name tok_string_bt = codes "STRING_BT"
cando_token_type_name tok_ident = codes "IDENT"
cando_token_type_name tok_if = codes "IF"
cando_token_type_name tok_else = codes "ELSE"
cando_token_type_name tok_while = codes "WHILE"
cando_token_type_name tok_for = codes "FOR"
cando_token_type_name tok_function = codes "FUNCTION"
cando_token_type_name tok_class = codes "CLASS"
cando_token_type_name tok_return = codes "RETURN"
cando_token_type_name tok_throw = codes "THROW"
cando_token_type_name tok_try = codes "TRY"
cando_token_type_name tok_catch = codes "CATCH"
cando_token_type_name tok_finaly = codes "FINALY"
cando_token_type_name tok_const = codes "CONST"
cando_token_type_name tok_var = codes "VAR"
cando_token_type_name tok_global = codes "GLOBAL"
cando_token_type_name tok_static = codes "STATIC"
cando_token_type_name tok_private = codes "PRIVATE"
cando_token_type_name tok_async = codes "ASYNC"
cando_token_type_name tok_await = codes "AWAIT"
cando_token_type_name tok_thread = codes "THREAD"
cando_token_type_name tok_null_kw = codes "NULL"
cando_token_type_name tok_true_kw = codes "TRUE"
cando_token_type_name tok_false_kw = codes "FALSE"
cando_token_type_name tok_in = codes "IN"
cando_token_type_name tok_of = codes "OF"
cando_token_type_name tok_over = codes "OVER"
cando_token_type_name tok_continue = codes "CONTINUE"
cando_token_type_name tok_break = codes "BREAK"
cando_token_type_name tok_pipe_kw = codes "pipe"
cando_token_type_name tok_pipe_op = codes "~>"
cando_token_type_name tok_filter_op = codes "~!>"
cando_token_type_name tok_range_asc = codes "->"
cando_token_type_name tok_range_desc = codes "<-"
cando_token_type_name tok_fluent = codes "::"
cando_token_type_name tok_vararg = codes "..."
cando_token_type_name tok_fat_arrow = codes "=>"
cando_token_type_name tok_and = codes "&&"
cando_token_type_name tok_or = codes "||"
cando_token_type_name tok_eq = codes "=="
cando_token_type_name tok_neq = codes "!="
cando_token_type_name tok_leq = codes "<="
cando_token_type_name tok_geq = codes ">="
cando_token_type_name tok_lshift = codes "<<"
cando_token_type_name tok_rshift = codes ">>"
cando_token_type_name tok_bitxor = codes "|&"
cando_token_type_name tok_plus_assign = codes "+="
cando_token_type_name tok_minus_assign = codes "-="
cando_token_type_name tok_star_assign = codes "*="
cando_token_type_name tok_slash_assign = codes "/="
cando_token_type_name tok_percent_assign = codes "%="
cando_token_type_name tok_caret_assign = codes "^="
cando_token_type_name tok_incr = codes "++"
cando_token_type_name tok_decr = codes "--"
cando_token_type_name tok_plus = codes "+"
cando_token_type_name tok_minus = codes "-"
cando_token_type_name tok_star = codes "*"
cando_token_type_name tok_slash = codes "/"
cando_token_type_name tok_percent = codes "%"
cando_token_type_name tok_caret = codes "^"
cando_token_type_name tok_amp = codes "&"
cando_token_type_name tok_bitor = codes "|"
cando_token_type_name tok_lt = codes "<"
cando_token_type_name tok_gt = codes ">"
cando_token_type_name tok_assign = codes "="
cando_token_type_name tok_bang = codes "!"
cando_token_type_name tok_tilde = codes "~"
cando_token_type_name tok_dot = codes "."
cando_token_type_name tok_hash = codes "#"
cando_token_type_name tok_lparen = codes "("
cando_token_type_name tok_rparen = codes ")"
cando_token_type_name tok_lbrace = codes "{"
cando_token_type_name tok_rbrace = codes "}"
cando_token_type_name tok_lbracket = codes "["
cando_token_type_name tok_rbracket = codes "]"
cando_token_type_name tok_semi = codes ";"
cando_token_type_name tok_comma = codes ","
cando_token_type_name tok_colon = codes ":"
cando_token_type_name tok_eof = codes "EOF"
cando_token_type_name tok_error = codes "ERROR"

pub record CandoToken : Type 0 where
  pub type_of : CandoTokenType
  pub start : ℕ
  pub length : ℕ
  pub line : ℕ
  pub col : ℕ

pub record KeywordEntry : Type 0 where
  pub text : List ℕ
  pub meaning : CandoTokenType

abbrev pub entry : List ℕ → CandoTokenType → KeywordEntry
entry text meaning = record { text = text; meaning = meaning }

-- KEYWORDS, each with the length of its text.
unfoldable pub keywords : List KeywordEntry
keywords =
    entry (codes "IF") tok_if
    ∷ entry (codes "ELSE") tok_else
    ∷ entry (codes "WHILE") tok_while
    ∷ entry (codes "FOR") tok_for
    ∷ entry (codes "FUNCTION") tok_function
    ∷ entry (codes "CLASS") tok_class
    ∷ entry (codes "RETURN") tok_return
    ∷ entry (codes "THROW") tok_throw
    ∷ entry (codes "TRY") tok_try
    ∷ entry (codes "CATCH") tok_catch
    ∷ entry (codes "FINALY") tok_finaly
    ∷ entry (codes "CONST") tok_const
    ∷ entry (codes "VAR") tok_var
    ∷ entry (codes "GLOBAL") tok_global
    ∷ entry (codes "STATIC") tok_static
    ∷ entry (codes "PRIVATE") tok_private
    ∷ entry (codes "ASYNC") tok_async
    ∷ entry (codes "AWAIT") tok_await
    ∷ entry (codes "THREAD") tok_thread
    ∷ entry (codes "NULL") tok_null_kw
    ∷ entry (codes "TRUE") tok_true_kw
    ∷ entry (codes "FALSE") tok_false_kw
    ∷ entry (codes "IN") tok_in
    ∷ entry (codes "OF") tok_of
    ∷ entry (codes "OVER") tok_over
    ∷ entry (codes "CONTINUE") tok_continue
    ∷ entry (codes "BREAK") tok_break
    ∷ entry (codes "pipe") tok_pipe_kw
    ∷ []

unfoldable pub is_upper : ℕ → Bool
is_upper c = leb b'A' c && leb c b'Z'

unfoldable pub is_lower : ℕ → Bool
is_lower c = leb b'a' c && leb c b'z'

unfoldable pub to_lower : ℕ → ℕ
unfolding is_upper
to_lower c = if is_upper c then c + 32 else c

unfoldable pub some_char : (ℕ → Bool) → List ℕ → Bool
some_char test [] = false
some_char test (c ∷ cs) = test c || some_char test cs

-- The comparison of an entry: equal lengths, and equal bytes but for their case.
unfoldable pub same_text : List ℕ → List ℕ → Bool
unfolding to_lower
same_text [] [] = true
same_text [] (d ∷ ds) = false
same_text (c ∷ cs) [] = false
same_text (c ∷ cs) (d ∷ ds) = (to_lower c == to_lower d) && same_text cs ds

-- The loop over the table.
unfoldable pub find_keyword : List KeywordEntry → List ℕ → CandoTokenType
unfolding same_text
find_keyword [] ident = tok_ident
find_keyword (e ∷ es) ident = if same_text e.text ident then e.meaning else find_keyword es ident

unfoldable pub cando_keyword_type : List ℕ → CandoTokenType
unfolding some_char is_upper is_lower find_keyword keywords
cando_keyword_type ident =
    if some_char is_upper ident && some_char is_lower ident
    then tok_ident
    else find_keyword keywords ident
