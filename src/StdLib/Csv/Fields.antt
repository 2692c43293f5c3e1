-- ===== src/StdLib/Csv/Fields.antt =====
-- A field that csv_write_field writes is read back by csv_parse_field.
use can_do.Base.{
  ℕ, ◌≡◌, ◌≢◌, ◌⊎◌, inl, inr, refl, sym, ap, ◌∙◌, ◌==◌, Bool, true, false, ◌||◌, List, [], ◌∷◌,
  ◌++◌, arith, ℕ_discrete, Bool-cases,
}
use mathlib.Core.Path.{subst}
use can_do.StdLib.Csv.{
  quote, cr, lf, push, quoted, unquoted, csv_parse_field, needs_quote, escape, csv_write_field,
}

-- What follows a field in a file: nothing, a delimiter or the end of a line.
unfoldable pub IsEnd : ℕ → List ℕ → Type 0
IsEnd delim [] = Unit
IsEnd delim (c ∷ cs) = (c ≡ delim) ⊎ (c ≡ cr) ⊎ (c ≡ lf)

pub append_assoc : (xs ys zs : List ℕ) → (xs ++ ys) ++ zs ≡ xs ++ (ys ++ zs)
append_assoc [] ys zs = refl
append_assoc (x ∷ xs) ys zs = ap (λ (t : List ℕ). x ∷ t) (append_assoc xs ys zs)

-- Behind the closing quote comes no quote.
closed_end :
    (delim : ℕ) (rest : List ℕ) → delim ≢ quote → IsEnd delim rest → quoted true rest ≡ ([], rest)
unfolding IsEnd quoted
closed_end delim [] ne e = refl
closed_end delim (c ∷ cs) ne e =
    let other : (c == quote) ≡ false = ground (arith, ne, e) in rw other

quoted-escape :
    (delim : ℕ) (cell rest : List ℕ)
    → delim ≢ quote
    → IsEnd delim rest
    → quoted false (escape cell ++ (quote ∷ rest)) ≡ (cell, rest)
unfolding escape quoted
quoted-escape delim [] rest ne e = closed_end delim rest ne e
quoted-escape delim (c ∷ cell) rest ne e = elim (ℕ_discrete c quote) [
  | yes q ↦
      subst (λ (d : ℕ). quoted false (escape (d ∷ cell) ++ (quote ∷ rest)) ≡ (d ∷ cell, rest))
        (sym q) (ap (push quote) (quoted-escape delim cell rest ne e))
  | no other ↦
      let f : (c == quote) ≡ false = ground (arith, other) in
      let ih = quoted-escape delim cell rest ne e in rw f (rw f (ap (push c) ih))
]

abbrev special : ℕ → ℕ → Bool
special delim c = (c == quote) || ((c == cr) || ((c == lf) || (c == delim)))

none_of : (a b : Bool) → (a || b) ≡ false → (a ≡ false) × (b ≡ false)
none_of true b e = absurd (ground (arith, e))
none_of false b e = (refl, e)

unquoted-plain :
    (delim : ℕ) (cell rest : List ℕ)
    → needs_quote delim cell ≡ false
    → IsEnd delim rest
    → unquoted delim (cell ++ rest) ≡ (cell, rest)
unfolding unquoted needs_quote IsEnd
unquoted-plain delim [] [] plain e = refl
unquoted-plain delim [] (c ∷ cs) plain e = ground (arith, e)
unquoted-plain delim (c ∷ cell) rest plain e =
    let (here, later) = none_of (special delim c) (needs_quote delim cell) plain in
    let bare : ((c == delim) || ((c == lf) || (c == cr))) ≡ false = ground (arith, here) in
    rw (bare, unquoted-plain delim cell rest later e)

-- A bare field does not start with a quote.
bare_start :
    (delim : ℕ) (cell rest : List ℕ)
    → needs_quote delim cell ≡ false
    → delim ≢ quote
    → IsEnd delim rest
    → csv_parse_field delim (cell ++ rest) ≡ unquoted delim (cell ++ rest)
unfolding csv_parse_field needs_quote IsEnd
bare_start delim [] [] plain ne e = refl
bare_start delim [] (c ∷ cs) plain ne e =
    let other : (c == quote) ≡ false = ground (arith, ne, e) in rw other
bare_start delim (c ∷ cell) rest plain ne e =
    let (here, later) = none_of (special delim c) (needs_quote delim cell) plain in
    let other : (c == quote) ≡ false = ground (arith, here) in rw other

quoted_case :
    (delim : ℕ) (cell rest : List ℕ)
    → delim ≢ quote
    → IsEnd delim rest
    → csv_parse_field delim ((quote ∷ (escape cell ++ (quote ∷ []))) ++ rest) ≡ (cell, rest)
unfolding csv_parse_field
quoted_case delim cell rest ne e =
    ap (quoted false) (append_assoc (escape cell) (quote ∷ []) rest)
    ∙ quoted-escape delim cell rest ne e

-- What csv_write_field writes, followed by a delimiter, by the end of a line or by nothing, is read back
-- by csv_parse_field as the same field, unless the delimiter is the quote.
pub parse-write :
    (delim : ℕ) (cell rest : List ℕ)
    → delim ≢ quote
    → IsEnd delim rest
    → csv_parse_field delim (csv_write_field delim cell ++ rest) ≡ (cell, rest)
unfolding csv_write_field
parse-write delim cell rest ne e = elim (Bool-cases (needs_quote delim cell)) [
  | inl y ↦ rw (csv_write_field, y) (quoted_case delim cell rest ne e)
  | inr n ↦
      rw (csv_write_field, n)
        (bare_start delim cell rest n ne e ∙ unquoted-plain delim cell rest n e)
]
