-- ===== src/Csv/RoundTrip.antt =====
-- What `toCsv` writes, `parseCsv` reads back (packages/security/src/csv.ts).
use gundam_tcg_hub.Base.{
  ℕ, suc, ◌+◌, ◌≡◌, ◌≤◌, refl, sym, ap, Bool, true, false, ◌||◌, ltb, if◌then◌else◌, List, [], ◌∷◌,
  ◌++◌, length, map, Option, arith, Bool-cases, inl, inr, ◌∙◌, length-append,
}
use mathlib.Core.List.{append-nil, append_assoc}
use gundam_tcg_hub.Text.{Units, trim, byte_length}
use gundam_tcg_hub.Csv.Write.{cell_text, csv_cell, csv_row, join_lines, to_csv}
use gundam_tcg_hub.Csv.Read.{
  ok, Scanner, is_blank, end_row, step, scan, last_row, take_header, finish, without_mark,
  parse_csv,
}
use gundam_tcg_hub.Csv.Cells.{
  outside, loaded, scan-csv_row, close_row-ok, end_row-loaded, scan_break, loaded_between,
}

-- The row that a line without cells, or with one empty cell, leaves behind is not kept.
abbrev pub is_lost : List Units → Bool
is_lost [] = true
is_lost (c ∷ cs) = is_blank (c ∷ cs)

unfoldable pub kept_rows : List (List Units) → List (List Units)
kept_rows [] = []
kept_rows (r ∷ rs) = let rest = kept_rows rs in if is_lost r then rest else r ∷ rest

abbrev texts : List (Option Units) → List Units
texts = map cell_text

-- `rows` with the row `r`, if it is kept.
abbrev with_row : List (List Units) → List Units → List (List Units)
with_row rows r = if is_lost r then rows else rows ++ (r ∷ [])

with_row-le :
    (rows : List (List Units)) (r : List Units) → length (with_row rows r) ≤ suc (length rows)
with_row-le rows r = elim (Bool-cases (is_lost r)) [
  | inl lost ↦ rw lost (omega arith)
  | inr kept ↦ rw kept (omega (arith, length-append rows (r ∷ [])))
]

kept_rows-with_row :
    (rows : List (List Units)) (r : List Units) (rs : List (List Units))
    → with_row rows r ++ kept_rows rs ≡ rows ++ kept_rows (r ∷ rs)
unfolding kept_rows
kept_rows-with_row rows r rs = elim (Bool-cases (is_lost r)) [
  | inl lost ↦ rw lost refl
  | inr kept ↦ rw kept (append_assoc rows (r ∷ []) (kept_rows rs))
]

-- A line that another one follows.
scan_line :
    (max_rows : ℕ) (rows : List (List Units)) (saw : Bool) (r : List (Option Units)) (rest : Units)
    → length rows ≤ max_rows
    → scan max_rows (outside rows [] [] saw) false (csv_row r ++ (13 ∷ 10 ∷ rest))
      ≡ scan max_rows (outside (with_row rows (texts r)) [] [] true) false rest
unfolding csv_row is_blank scan step end_row
scan_line max_rows rows saw [] rest h = ground (arith, close_row-ok max_rows rows ([] ∷ []) h)
scan_line max_rows rows saw (v ∷ vs) rest h =
    let between = loaded_between max_rows rows [] (cell_text v) (map cell_text vs) in
    scan-csv_row max_rows rows [] v vs saw (13 ∷ 10 ∷ rest) refl
    ∙ scan_break max_rows _ _ rest between.0 between.1
        (end_row-loaded max_rows rows (cell_text v) (map cell_text vs) h)

length-loaded :
    (max_rows : ℕ) (rows : List (List Units)) (row : List Units) (field : Units) (vs : List Units)
    → length (loaded max_rows rows row field vs).row ≡ length row + length vs
length-loaded max_rows rows row field [] = omega arith
length-loaded max_rows rows row field (v ∷ vs) =
    omega (
      arith,
      length-loaded max_rows rows (row ++ (field ∷ [])) v vs,
      length-append row (field ∷ []),
    )

-- A row in the scanner at the end of the file.
finish_row :
    (max_rows : ℕ) (s : Scanner) (rows : List (List Units))
    → s.in_quotes ≡ false
    → s.saw_any_char ≡ true
    → (ltb 0 (length s.field) || ltb 0 (length s.row)) ≡ true
    → end_row max_rows s ≡ ok (outside rows [] [] true)
    → finish max_rows (ok s) ≡ take_header max_rows rows
unfolding finish last_row
finish_row max_rows s rows q w n e = ground (arith, e)

finish-loaded :
    (max_rows : ℕ) (rows : List (List Units)) (field : Units) (vs : List Units)
    → length rows ≤ max_rows
    → finish max_rows (ok (loaded max_rows rows [] field vs))
      ≡ take_header max_rows (with_row rows (field ∷ vs))
unfolding is_blank
finish-loaded max_rows rows [] [] h = unfold finish last_row in refl
finish-loaded max_rows rows (c ∷ f) [] h =
    finish_row max_rows _ _ refl refl (ground arith) (end_row-loaded max_rows rows (c ∷ f) [] h)
finish-loaded max_rows rows field (v ∷ vs) h =
    let between = loaded_between max_rows rows [] field (v ∷ vs) in
    finish_row max_rows _ _ between.0 between.1
      (ground (arith, length-loaded max_rows rows [] field (v ∷ vs)))
      (end_row-loaded max_rows rows field (v ∷ vs) h)

-- The line that the file ends with.
finish_line :
    (max_rows : ℕ) (rows : List (List Units)) (saw : Bool) (r : List (Option Units))
    → length rows ≤ max_rows
    → finish max_rows (scan max_rows (outside rows [] [] saw) false (csv_row r))
      ≡ take_header max_rows (with_row rows (texts r))
unfolding scan
finish_line max_rows rows saw [] h = unfold finish last_row csv_row in ground arith
finish_line max_rows rows saw (v ∷ vs) h =
    ap (λ t. finish max_rows (scan max_rows (outside rows [] [] saw) false t))
      (sym (append-nil (csv_row (v ∷ vs))))
    ∙ ap (finish max_rows) (scan-csv_row max_rows rows [] v vs saw [] refl)
    ∙ finish-loaded max_rows rows (cell_text v) (map cell_text vs) h

scan-join_lines :
    (max_rows : ℕ) (rows : List (List Units)) (saw : Bool) (r : List (Option Units))
    (rs : List (List (Option Units)))
    → length rows + length rs ≤ max_rows
    → finish max_rows
        (scan max_rows (outside rows [] [] saw) false (join_lines (csv_row r ∷ map csv_row rs)))
      ≡ take_header max_rows (rows ++ kept_rows (texts r ∷ map texts rs))
unfolding join_lines kept_rows
scan-join_lines max_rows rows saw r [] h =
    finish_line max_rows rows saw r (omega arith)
    ∙ ap (take_header max_rows) (sym (append-nil _) ∙ kept_rows-with_row rows (texts r) [])
scan-join_lines max_rows rows saw r (q ∷ rs) h =
    ap (finish max_rows) (scan_line max_rows rows saw r _ (omega arith))
    ∙ scan-join_lines max_rows (with_row rows (texts r)) true q rs
        (omega (arith, with_row-le rows (texts r)))
    ∙ ap (take_header max_rows) (kept_rows-with_row rows (texts r) (texts q ∷ map texts rs))

to_csv-has_no_mark :
    (h : List (Option Units)) (rows : List (List (Option Units)))
    → is_lost (texts h) ≡ false
    → without_mark (to_csv h rows) ≡ to_csv h rows
unfolding without_mark to_csv join_lines csv_row csv_cell
to_csv-has_no_mark [] rows n = cc
to_csv-has_no_mark (v ∷ []) [] n = refl
to_csv-has_no_mark (v ∷ w ∷ vs) [] n = refl
to_csv-has_no_mark (v ∷ []) (r ∷ rows) n = refl
to_csv-has_no_mark (v ∷ w ∷ vs) (r ∷ rows) n = refl

kept_rows-kept :
    (r : List Units) (rs : List (List Units))
    → is_lost r ≡ false
    → kept_rows (r ∷ rs) ≡ r ∷ kept_rows rs
unfolding kept_rows
kept_rows-kept r rs n = rw n refl

length-kept_rows : (rs : List (List Units)) → length (kept_rows rs) ≤ length rs
unfolding kept_rows
length-kept_rows [] = omega arith
length-kept_rows (r ∷ rs) = ground (arith, length-kept_rows rs)

length-texts : (rows : List (List (Option Units))) → length (map texts rows) ≡ length rows
length-texts [] = refl
length-texts (r ∷ rows) = ap suc (length-texts rows)

to_csv_lines :
    (h : List (Option Units)) (rows : List (List (Option Units)))
    → to_csv h rows ≡ join_lines (csv_row h ∷ map csv_row rows)
unfolding to_csv
to_csv_lines h rows = refl

take_header-ok :
    (max_rows : ℕ) (h : List Units) (rows : List (List Units))
    → length rows ≤ max_rows
    → take_header max_rows (h ∷ rows) ≡ ok (record { header = map trim h; rows = rows })
unfolding take_header
take_header-ok max_rows h rows few = ground arith

-- A document that is written within the limits on rows and bytes, under a header that is not a single
-- empty cell, is read back: the header with the space about its names trimmed, and every row in its
-- order with its cells as they were exported, formulas with their apostrophe, whatever quotes,
-- commas and line breaks they hold. A row without cells or with one empty cell is not read back.
pub parse_csv-to_csv :
    (max_rows max_bytes : ℕ) (h : List (Option Units)) (rows : List (List (Option Units)))
    → is_lost (map cell_text h) ≡ false
    → byte_length (to_csv h rows) ≤ max_bytes
    → length rows ≤ max_rows
    → parse_csv max_rows max_bytes (to_csv h rows)
      ≡ ok (record {
        header = map trim (map cell_text h);
        rows = kept_rows (map (map cell_text) rows);
      })
unfolding parse_csv
parse_csv-to_csv max_rows max_bytes h rows n small few =
    let read =
      scan-join_lines max_rows [] false h rows (omega arith)
      ∙ ap (take_header max_rows) (kept_rows-kept (texts h) (map texts rows) n) in
    ground (
      arith,
      to_csv-has_no_mark h rows n,
      to_csv_lines h rows,
      read,
      take_header-ok max_rows (texts h) (kept_rows (map texts rows)),
      length-kept_rows (map texts rows),
      length-texts rows,
    )
