-- ===== src/Csv/Cells.antt =====
-- The scanner of `parseCsv` on what `csvRow` writes (packages/security/src/csv.ts).
use gundam_tcg_hub.Base.{
  ℕ, suc, ◌≡◌, ◌≤◌, refl, ap, Bool, true, false, ◌==◌, List, [], ◌∷◌, ◌++◌, length, map, Option,
  arith, Bool-cases, inl, inr, ◌∙◌, length-append, ==_iff,
}
use mathlib.Core.List.{append-nil, append_assoc}
use gundam_tcg_hub.Text.{Units, first}
use gundam_tcg_hub.Csv.Write.{double_quotes, cell_text, csv_cell, csv_row}
use gundam_tcg_hub.Csv.Read.{
  ok, Scanner, end_field, is_blank, push_row, close_row, end_row, next_is, step, scan,
}

-- The scanner between the cells of a row, and in a quoted one.
abbrev pub outside : List (List Units) → List Units → Units → Bool → Scanner
outside rows row field saw = record {
  rows = rows;
  row = row;
  field = field;
  in_quotes = false;
  saw_any_char = saw;
}

abbrev inside : List (List Units) → List Units → Units → Scanner
inside rows row field = record {
  rows = rows;
  row = row;
  field = field;
  in_quotes = true;
  saw_any_char = true;
}

module _ (max_rows : ℕ) (rows : List (List Units)) where
  -- In quotes the scanner reads the cell's text off its doubled form.
  scan-double_quotes :
      (row : List Units) (v field rest : Units)
      → next_is b'"' (first rest) ≡ false
      → scan max_rows (inside rows row field) false (double_quotes v ++ (b'"' ∷ rest))
        ≡ scan max_rows (outside rows row (field ++ v) true) false rest
  unfolding scan double_quotes step
  scan-double_quotes row [] field rest n = rw append-nil (ground arith)
  scan-double_quotes row (c ∷ v) field rest n = elim (Bool-cases (c == b'"')) [
    | inl same ↦ rw same (
        scan-double_quotes row v (field ++ (b'"' ∷ [])) rest n
        ∙ rw (append_assoc, (==_iff c b'"').0 same))
    | inr other ↦
        rw (other, scan)
          (rw (other, step) (scan-double_quotes row v (field ++ (c ∷ [])) rest n ∙ rw append_assoc))
  ]

  -- A whole cell.
  scan-csv_cell :
      (row : List Units) (v : Option Units) (saw : Bool) (rest : Units)
      → next_is b'"' (first rest) ≡ false
      → scan max_rows (outside rows row [] saw) false (csv_cell v ++ rest)
        ≡ scan max_rows (outside rows row (cell_text v) true) false rest
  unfolding csv_cell scan step
  scan-csv_cell row v saw rest n =
      rw (append_assoc) (scan-double_quotes row (cell_text v) [] rest n)

  scan_comma :
      (row : List Units) (field rest : Units)
      → scan max_rows (outside rows row field true) false (b',' ∷ rest)
        ≡ scan max_rows (outside rows (row ++ (field ∷ [])) [] true) false rest
  unfolding scan step
  scan_comma row field rest = refl

  -- The scanner after the cells of a row: the last one is still in `field`.
  abbrev pub loaded : List Units → Units → List Units → Scanner
  loaded row field [] = outside rows row field true
  loaded row field (v ∷ vs) = loaded (row ++ (field ∷ [])) v vs

  pub scan-csv_row :
      (row : List Units) (v : Option Units) (vs : List (Option Units)) (saw : Bool) (rest : Units)
      → next_is b'"' (first rest) ≡ false
      → scan max_rows (outside rows row [] saw) false (csv_row (v ∷ vs) ++ rest)
        ≡ scan max_rows (loaded row (cell_text v) (map cell_text vs)) false rest
  unfolding csv_row
  scan-csv_row row v [] saw rest n = scan-csv_cell row v saw rest n
  scan-csv_row row v (w ∷ vs) saw rest n = rw append_assoc (
      scan-csv_cell row v saw _ refl
      ∙ scan_comma row (cell_text v) (csv_row (w ∷ vs) ++ rest)
      ∙ scan-csv_row (row ++ (cell_text v ∷ [])) w vs true rest n)

  end_field-loaded :
      (row : List Units) (field : Units) (vs : List Units)
      → end_field (loaded row field vs) ≡ outside rows (row ++ (field ∷ vs)) [] true
  end_field-loaded row field [] = refl
  end_field-loaded row field (v ∷ vs) =
      end_field-loaded (row ++ (field ∷ [])) v vs
      ∙ ap (λ r. outside rows r [] true) (append_assoc row (field ∷ []) (v ∷ vs))

pub loaded_between :
    (max_rows : ℕ) (rows : List (List Units)) (row : List Units) (field : Units) (vs : List Units)
    → let s = loaded max_rows rows row field vs in (s.in_quotes ≡ false) × (s.saw_any_char ≡ true)
loaded_between max_rows rows row field [] = (refl, refl)
loaded_between max_rows rows row field (v ∷ vs) =
    loaded_between max_rows rows (row ++ (field ∷ [])) v vs

pub push_row-le :
    (rows : List (List Units)) (row : List Units) → length (push_row rows row) ≤ suc (length rows)
push_row-le rows row = elim (Bool-cases (is_blank row)) [
  | inl lost ↦ rw lost (omega arith)
  | inr kept ↦ rw kept (omega (arith, length-append rows (row ∷ [])))
]

pub close_row-ok :
    (max_rows : ℕ) (rows : List (List Units)) (row : List Units)
    → length rows ≤ max_rows
    → close_row max_rows (outside rows row [] true) ≡ ok (outside (push_row rows row) [] [] true)
unfolding close_row
close_row-ok max_rows rows row h = ground (arith, push_row-le rows row)

pub end_row-loaded :
    (max_rows : ℕ) (rows : List (List Units)) (field : Units) (vs : List Units)
    → length rows ≤ max_rows
    → end_row max_rows (loaded max_rows rows [] field vs)
      ≡ ok (outside (push_row rows (field ∷ vs)) [] [] true)
unfolding end_row
end_row-loaded max_rows rows field vs h =
    ap (close_row max_rows) (end_field-loaded max_rows rows [] field vs)
    ∙ close_row-ok max_rows rows (field ∷ vs) h

-- A line break ends the row that stands in the scanner.
pub scan_break :
    (max_rows : ℕ) (s t : Scanner) (rest : Units)
    → s.in_quotes ≡ false
    → s.saw_any_char ≡ true
    → end_row max_rows s ≡ ok t
    → scan max_rows s false (13 ∷ 10 ∷ rest) ≡ scan max_rows t false rest
unfolding scan step
scan_break max_rows s t rest q w e = ground (arith, e)
