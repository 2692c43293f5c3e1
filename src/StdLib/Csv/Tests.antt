-- ===== src/StdLib/Csv/Tests.antt =====
-- The CSV reader and writer run on small tables, and the theorems about them applied there.
use can_do.Base.{ℕ, ◌≡◌, inl, refl, List, [], ◌∷◌, ◌++◌, some, arith}
use can_do.StdLib.Csv.{
  quoted, unquoted, csv_parse_field, skip_byte, csv_skip_crlf, csv_parse_row, parse_rows, csv_parse,
  needs_quote, escape, csv_write_field, write_row, write_rows,
}
use can_do.StdLib.Csv.Fields.{IsEnd, parse-write}
use can_do.StdLib.Csv.Rows.{csv_parse-write_rows}

everything : Unit {0}
unfolding quoted unquoted csv_parse_field skip_byte csv_skip_crlf csv_parse_row parse_rows csv_parse
    needs_quote escape csv_write_field write_row write_rows IsEnd
everything = tt

abbrev comma : ℕ
comma = 44

-- A quote, a comma and the end of a line stand in cells; one cell is empty.
abbrev table : List (List (List ℕ))
table = ((65 ∷ 34 ∷ []) ∷ [] ∷ []) ∷ ((44 ∷ 13 ∷ 10 ∷ []) ∷ []) ∷ []

-- A row without a cell is written as a line's end and read back as a row with one empty cell.
empty_row : csv_parse comma (write_rows comma ([] ∷ [])) ≡ some (([] ∷ []) ∷ [])
unfolding everything
empty_row = refl

comma-IsEnd : IsEnd comma (44 ∷ 65 ∷ [])
unfolding everything
comma-IsEnd = inl refl

parse-write_example :
    csv_parse_field comma (csv_write_field comma (65 ∷ 34 ∷ []) ++ (44 ∷ 65 ∷ []))
    ≡ (65 ∷ 34 ∷ [], 44 ∷ 65 ∷ [])
parse-write_example =
    parse-write comma (65 ∷ 34 ∷ []) (44 ∷ 65 ∷ []) (λ e. absurd (omega (arith, e))) comma-IsEnd

csv_parse-write_rows_example : csv_parse comma (write_rows comma table) ≡ some table
csv_parse-write_rows_example =
    csv_parse-write_rows comma (λ e. absurd (omega (arith, e))) (λ e. absurd (omega (arith, e)))
      table tt
