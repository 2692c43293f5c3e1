-- ===== src/StdLib/Csv/Rows.antt =====
-- A table that the writer produces is read back by csv_parse.
use can_do.Base.{
  ℕ, zero, suc, ◌+◌, ◌≤◌, ◌<◌, ◌≡◌, ◌≢◌, inl, inr, refl, ap, ◌∙◌, ◌==◌, true, false, List, [], ◌∷◌,
  ◌++◌, Option, some, arith, length, length-append,
}
use can_do.StdLib.Csv.{
  quote, cr, lf, csv_parse_field, skip_byte, csv_skip_crlf, csv_parse_row, parse_rows, csv_parse,
  csv_write_field, write_row, write_rows,
}
use can_do.StdLib.Csv.Fields.{IsEnd, append_assoc, parse-write}

-- Every row has a cell.
abbrev pub HasCells : List (List (List ℕ)) → Type 0
HasCells [] = Unit
HasCells ([] ∷ rows) = ⊥
HasCells ((cell ∷ row) ∷ rows) = HasCells rows

module _ (delim : ℕ) (no_quote : delim ≢ quote) (no_cr : delim ≢ cr) where
  named :
      (field : List ℕ) {x : List ℕ × List ℕ} {more : List ℕ}
      → x ≡ (field, more)
      → (cells : List (List ℕ)) (rest : List ℕ)
      → ◌≡◌ {A = Option (List (List ℕ) × List ℕ)}
          (some (x.0 ∷ cells, rest))
          (some (field ∷ cells, rest))
  named field e cells rest = ap (λ (f : List ℕ × List ℕ). some (f.0 ∷ cells, rest)) e

  -- One more field of a row, with a delimiter behind it.
  row_more :
      (fuel : ℕ) (src field more : List ℕ) (cells : List (List ℕ)) (rest : List ℕ)
      → csv_parse_field delim src ≡ (field, delim ∷ more)
      → csv_parse_row delim fuel more ≡ some (cells, rest)
      → csv_parse_row delim (suc fuel) src ≡ some (field ∷ cells, rest)
  unfolding csv_parse_row
  row_more fuel src field more cells rest one others =
      let same : (delim == delim) ≡ true = ground arith in
      rw (csv_parse_row, one) (rw (same, others) (named field one cells rest))

  -- The last field of a row.
  row_last :
      (fuel : ℕ) (src field rest : List ℕ)
      → csv_parse_field delim src ≡ (field, cr ∷ lf ∷ rest)
      → csv_parse_row delim (suc fuel) src ≡ some (field ∷ [], rest)
  unfolding csv_parse_row csv_skip_crlf skip_byte
  row_last fuel src field rest one =
      let other : (cr == delim) ≡ false = ground (arith, no_cr) in
      rw (csv_parse_row, one) (rw other (named field one [] rest))

  row-write :
      (fuel : ℕ) (cell : List ℕ) (row : List (List ℕ)) (rest : List ℕ)
      → length row ≤ fuel
      → csv_parse_row delim (suc fuel) (write_row delim (cell ∷ row) ++ rest)
        ≡ some (cell ∷ row, rest)
  unfolding write_row IsEnd
  row-write fuel cell [] rest fits =
      row_last fuel ((csv_write_field delim cell ++ (cr ∷ lf ∷ [])) ++ rest) cell rest (
        ap (csv_parse_field delim) (append_assoc (csv_write_field delim cell) (cr ∷ lf ∷ []) rest)
        ∙ parse-write delim cell (cr ∷ lf ∷ rest) no_quote (inr (inl refl)))
  row-write zero cell (next ∷ row) rest fits = absurd (omega (arith, fits))
  row-write (suc fuel) cell (next ∷ row) rest fits =
      let tail = write_row delim (next ∷ row) ++ rest in
      row_more (suc fuel)
        ((csv_write_field delim cell ++ (delim ∷ write_row delim (next ∷ row))) ++ rest) cell tail
        (next ∷ row) rest
        (ap (csv_parse_field delim)
            (append_assoc (csv_write_field delim cell) (delim ∷ write_row delim (next ∷ row)) rest)
          ∙ parse-write delim cell (delim ∷ tail) no_quote (inl refl))
        (row-write fuel next row rest (omega (arith, fits)))

  -- A row takes at least as many bytes as it has cells, and two.
  row_bytes :
      (cell : List ℕ) (row : List (List ℕ)) → length row + 2 ≤ length (write_row delim (cell ∷ row))
  unfolding write_row
  row_bytes cell [] = omega (arith, length-append (csv_write_field delim cell) (cr ∷ lf ∷ []))
  row_bytes cell (next ∷ row) = omega (
    arith,
    length-append (csv_write_field delim cell) (delim ∷ write_row delim (next ∷ row)),
    row_bytes next row,
  )

  rows_step :
      (fuel : ℕ) (src : List ℕ) (row : List (List ℕ)) (rest : List ℕ) (rows : List (List (List ℕ)))
      → 0 < length src
      → csv_parse_row delim (suc (length src)) src ≡ some (row, rest)
      → parse_rows delim fuel rest ≡ some rows
      → parse_rows delim (suc fuel) src ≡ some (row ∷ rows)
  unfolding parse_rows
  rows_step fuel [] row rest rows pos one others = absurd (omega (arith, pos))
  rows_step fuel (c ∷ cs) row rest rows pos one others = rw (parse_rows, one) (rw others)

  rows-write :
      (fuel : ℕ) (rows : List (List (List ℕ)))
      → HasCells rows
      → length rows ≤ fuel
      → parse_rows delim fuel (write_rows delim rows) ≡ some rows
  unfolding write_rows parse_rows
  rows-write zero [] full fits = refl
  rows-write (suc fuel) [] full fits = refl
  rows-write fuel ([] ∷ rows) full fits = elim full [ ]
  rows-write zero ((cell ∷ row) ∷ rows) full fits = absurd (omega (arith, fits))
  rows-write (suc fuel) ((cell ∷ row) ∷ rows) full fits =
      let later = write_rows delim rows in
      let size = length-append (write_row delim (cell ∷ row)) later in
      let src = write_row delim (cell ∷ row) ++ later in
      rows_step fuel src (cell ∷ row) later rows (omega (arith, size, row_bytes cell row))
        (row-write (length src) cell row later (omega (arith, size, row_bytes cell row)))
        (rows-write fuel rows full (omega (arith, fits)))

  rows_bytes :
      (rows : List (List (List ℕ))) → HasCells rows → length rows ≤ length (write_rows delim rows)
  unfolding write_rows
  rows_bytes [] full = omega arith
  rows_bytes ([] ∷ rows) full = elim full [ ]
  rows_bytes ((cell ∷ row) ∷ rows) full = omega (
    arith,
    length-append (write_row delim (cell ∷ row)) (write_rows delim rows),
    row_bytes cell row,
    rows_bytes rows full,
  )

  -- With a delimiter other than the quote and the carriage return, csv_parse of a written table, each
  -- row of which has a cell, returns that table, whatever bytes the cells hold.
  pub csv_parse-write_rows :
      (rows : List (List (List ℕ)))
      → HasCells rows
      → csv_parse delim (write_rows delim rows) ≡ some rows
  unfolding csv_parse
  csv_parse-write_rows rows full =
      rows-write (length (write_rows delim rows)) rows full (rows_bytes rows full)
