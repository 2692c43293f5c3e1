-- ===== src/Parser/Token/Tests.antt =====
-- Identifiers, and which of them are keywords.
use can_do.Base.{◌≡◌, ◌≢◌, refl, ◌↔◌}
use can_do.Base.Text.{codes}
use can_do.Parser.Token.{tok_ident, tok_if, cando_keyword_type}
use can_do.Parser.Token.Keywords.{Spells, keyword_type-Spells}

lower_case : cando_keyword_type (codes "if") ≡ tok_if
unfolding cando_keyword_type
lower_case = refl

mixed_case : cando_keyword_type (codes "If") ≡ tok_ident
unfolding cando_keyword_type
mixed_case = refl

if-ne-ident : tok_if ≢ tok_ident
if-ne-ident e = cc

keyword_type-Spells_example :
    (cando_keyword_type (codes "if") ≡ tok_if) ↔ Spells (codes "if") tok_if
keyword_type-Spells_example = keyword_type-Spells (codes "if") tok_if if-ne-ident
