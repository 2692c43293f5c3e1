-- ===== src/StdLib/Csv.antt =====
-- source/lib/csv.c: the CSV reader and writer on bytes. The reader's position is the list of bytes that
-- are still to be read. Allocation succeeds. A cell is its text, as csv_cell_to_str gives it. `none` is
-- a loop that is still running when its fuel, one more than the bytes to read, is spent.
pub mod Fields
pub mod Rows
mod Tests
use can_do.Base.{
  ℕ, zero, suc, ◌+◌, ◌==◌, if◌then◌else◌, Bool, true, false, ◌||◌, List, [], ◌∷◌, ◌++◌, Option,
  none, some, length,
}

abbrev pub quote : ℕ
quote = 34

abbrev pub cr : ℕ
cr = 13

abbrev pub lf : ℕ
lf = 10

-- A byte goes in front of a field that is read.
abbrev pub push : ℕ → List ℕ × List ℕ → List ℕ × List ℕ
push c r = (c ∷ r.0, r.1)

-- The loop of csv_parse_field in a quoted field; `closed` says that the last byte was a quote, which
-- ends the field unless another one follows.
unfoldable pub quoted : Bool → List ℕ → List ℕ × List ℕ
quoted closed [] = ([], [])
quoted false (c ∷ cs) =
    let rest = quoted (c == quote) cs in if c == quote then rest else push c rest
quoted true (c ∷ cs) =
    let rest = quoted false cs in if c == quote then push quote rest else ([], c ∷ cs)

-- Its loop in a bare field.
unfoldable pub unquoted : ℕ → List ℕ → List ℕ × List ℕ
unquoted delim [] = ([], [])
unquoted delim (c ∷ cs) =
    let rest = unquoted delim cs in
    if (c == delim) || ((c == lf) || (c == cr)) then ([], c ∷ cs) else push c rest

unfoldable pub csv_parse_field : ℕ → List ℕ → List ℕ × List ℕ
unfolding quoted unquoted
csv_parse_field delim [] = unquoted delim []
csv_parse_field delim (c ∷ cs) = if c == quote then quoted false cs else unquoted delim (c ∷ cs)

unfoldable pub skip_byte : ℕ → List ℕ → List ℕ
skip_byte b [] = []
skip_byte b (c ∷ cs) = if c == b then cs else c ∷ cs

unfoldable pub csv_skip_crlf : List ℕ → List ℕ
unfolding skip_byte
csv_skip_crlf cs = skip_byte lf (skip_byte cr cs)

-- What follows a field: the rest of the row, or its end.
unfoldable pub csv_parse_row : ℕ → ℕ → List ℕ → Option (List (List ℕ) × List ℕ)
unfolding csv_parse_field csv_skip_crlf
csv_parse_row delim zero cs = none
csv_parse_row delim (suc fuel) cs =
    let read = csv_parse_field delim cs in
    elim read.1 [
      | [] ↦ some (read.0 ∷ [], [])
      | next ∷ more ↦
          let row = csv_parse_row delim fuel more in
          if next == delim
          then elim row [ none ↦ none | some r ↦ some (read.0 ∷ r.0, r.1) ]
          else some (read.0 ∷ [], csv_skip_crlf (next ∷ more))
    ]

-- The rows of csv_parse without header mode.
unfoldable pub parse_rows : ℕ → ℕ → List ℕ → Option (List (List (List ℕ)))
unfolding csv_parse_row
parse_rows delim fuel [] = some []
parse_rows delim zero (c ∷ cs) = none
parse_rows delim (suc fuel) (c ∷ cs) = elim (csv_parse_row delim (suc (length (c ∷ cs))) (c ∷ cs)) [
  | none ↦ none
  | some row ↦ elim (parse_rows delim fuel row.1) [ none ↦ none | some rows ↦ some (row.0 ∷ rows) ]
]

unfoldable pub csv_parse : ℕ → List ℕ → Option (List (List (List ℕ)))
unfolding parse_rows
csv_parse delim src = parse_rows delim (length src) src

-- The test that csv_write_field makes of every byte.
unfoldable pub needs_quote : ℕ → List ℕ → Bool
needs_quote delim [] = false
needs_quote delim (c ∷ cell) =
    ((c == quote) || ((c == cr) || ((c == lf) || (c == delim)))) || needs_quote delim cell

unfoldable pub escape : List ℕ → List ℕ
escape [] = []
escape (c ∷ cell) = if c == quote then quote ∷ c ∷ escape cell else c ∷ escape cell

unfoldable pub csv_write_field : ℕ → List ℕ → List ℕ
unfolding needs_quote escape
csv_write_field delim cell =
    if needs_quote delim cell then quote ∷ (escape cell ++ (quote ∷ [])) else cell

-- The cells of one row, each but the first behind a delimiter, and the line's end.
unfoldable pub write_row : ℕ → List (List ℕ) → List ℕ
unfolding csv_write_field
write_row delim [] = cr ∷ lf ∷ []
write_row delim (cell ∷ []) = csv_write_field delim cell ++ (cr ∷ lf ∷ [])
write_row delim (cell ∷ next ∷ row) =
    csv_write_field delim cell ++ (delim ∷ write_row delim (next ∷ row))

unfoldable pub write_rows : ℕ → List (List (List ℕ)) → List ℕ
unfolding write_row
write_rows delim [] = []
write_rows delim (row ∷ rows) = write_row delim row ++ write_rows delim rows
