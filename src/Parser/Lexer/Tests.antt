-- ===== src/Parser/Lexer/Tests.antt =====
-- The lexer run on short sources, and the theorems about it applied there.
use can_do.Base.{ℕ, ◌≡◌, refl, ◌<◌, ◌-◌, ◌^◌, true, List, some, arith, length}
use can_do.Base.Text.{codes}
use can_do.Parser.Token.{
  CandoTokenType, CandoToken, tok_ident, tok_if, tok_incr, cando_token_type_name,
}
use can_do.Parser.Lexer.{
  CandoLexer, Lexed, lex_peek_char, lex_peek_char2, lex_at_end, cando_lexer_next, cando_lexer_init,
  is_space, is_digit, is_alpha, is_name,
}
use can_do.Parser.Lexer.Scan.{newlines, line_start_of, IsAt}
use can_do.Parser.Lexer.Bounds.{Lexes}
use can_do.Parser.Lexer.Next.{next-Lexes}
use can_do.Parser.Lexer.Names.{has_fixed_text, LexesAs, name-LexesAs}

everything : Unit {0}
unfolding newlines line_start_of lex_peek_char lex_peek_char2 lex_at_end cando_lexer_next
    cando_lexer_init is_space is_digit is_alpha is_name has_fixed_text
everything = tt

-- A comment, the end of a line and two names.
abbrev source : List ℕ
source = codes "// a\n  bc d"

first_token :
    cando_lexer_next (cando_lexer_init source)
    ≡ some (record {
      token = record { type_of = tok_ident; start = 7; length = 2; line = 2; col = 3 };
      lex = record (cando_lexer_init source) { pos = 9; line = 2; line_start = 5 };
    })
unfolding everything can_do.Parser.Token.cando_keyword_type
first_token = refl

abbrev behind_first : CandoLexer
behind_first = record (cando_lexer_init source) { pos = 9; line = 2; line_start = 5 }

behind_first-IsAt : IsAt behind_first
unfolding everything
behind_first-IsAt = record { within = omega arith; line_is = refl; start_is = refl }

behind_first_small : length behind_first.source < 2 ^ 32 - 1
unfolding cando_lexer_init
behind_first_small = omega arith

next-Lexes_example : (t : Lexed) × (cando_lexer_next behind_first ≡ some t) × Lexes behind_first t
next-Lexes_example = next-Lexes behind_first behind_first-IsAt behind_first_small

incr-fixed : has_fixed_text tok_incr ≡ true
unfolding everything
incr-fixed = refl

name-LexesAs_example : LexesAs (cando_token_type_name tok_incr) tok_incr
name-LexesAs_example = name-LexesAs tok_incr incr-fixed
