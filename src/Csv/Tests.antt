-- ===== src/Csv/Tests.antt =====
-- Runs of the CSV reader and writer, and the theorems about them at concrete inputs.
use gundam_tcg_hub.Base.{
  ℕ, suc, true, get_elem?, get_or, drop, ◌≡◌, refl, List, [], ◌∷◌, map, Option, none, some, arith,
}
use gundam_tcg_hub.Text.{Units, units, trim, byte_length}
use gundam_tcg_hub.Csv.Write.{cell_text, to_csv}
use gundam_tcg_hub.Csv.Read.{
  CsvDocument, ok, err, ends_in_quotes, too_many_rows, parse_csv, step, map_csv_rows, is_blank,
  close_row,
}
use gundam_tcg_hub.Csv.RoundTrip.{kept_rows, parse_csv-to_csv}
use gundam_tcg_hub.Csv.Mapping.{map_reference, as_record, absent, lookup, map_csv_rows-eq-reference}

abbrev header : List (Option Units)
header = some (units "set") ∷ some (units " number ") ∷ []

-- A formula and an empty cell; a quote and a comma; a row that is lost.
abbrev exported : List (List (Option Units))
exported =
    (some (units "=1+1") ∷ none ∷ [])
    ∷ (some (units "a\"b") ∷ some (units "c,d") ∷ [])
    ∷ (none ∷ [])
    ∷ []

abbrev document : CsvDocument
document = record {
  header = units "set" ∷ units "number" ∷ [];
  rows = (units "'=1+1" ∷ [] ∷ []) ∷ (units "a\"b" ∷ units "c,d" ∷ []) ∷ [];
}

reads_back : parse_csv 5 1000 (to_csv header exported) ≡ ok document
unfolding to_csv parse_csv step trim byte_length is_blank close_row
reads_back = refl

unclosed : parse_csv 5 1000 (units "a,\"b") ≡ err ends_in_quotes
unfolding parse_csv step byte_length is_blank close_row
unclosed = refl

one_row_too_many : parse_csv 1 1000 (units "a\n1\n2") ≡ err too_many_rows
unfolding parse_csv step byte_length is_blank close_row
one_row_too_many = refl

parse_csv-to_csv_example :
    parse_csv 5 1000 (to_csv header exported)
    ≡ ok (record {
      header = map trim (map cell_text header);
      rows = kept_rows (map (map cell_text) exported);
    })
unfolding to_csv cell_text byte_length is_blank
parse_csv-to_csv_example = parse_csv-to_csv 5 1000 header exported refl (omega arith) (omega arith)

abbrev ragged : CsvDocument
ragged = record document { rows = (units "x" ∷ []) ∷ document.rows }

map_csv_rows-eq-reference_example :
    (map_csv_rows ragged ≡ map_reference ragged)
    × ((name : Units) (i : ℕ) (r : ℕ × List Units)
        → get_elem? ragged.header i ≡ some name
        → absent name (drop (suc i) ragged.header) ≡ true
        → lookup name (as_record ragged.header r) ≡ some (trim (get_or (get_elem? r.1 i) [])))
map_csv_rows-eq-reference_example = map_csv_rows-eq-reference ragged

-- The parser drops the blank second line, so the short row of line 3 is reported as row 2.
abbrev gap : Units
gap = units "a,b\n\n1\n"

numbered_past_blanks :
    elim (parse_csv 5 1000 gap) [ ok doc ↦ (map_csv_rows doc).errors | err e ↦ [] ]
    ≡ record { row = 2; expected = 2; found = 1 } ∷ []
unfolding parse_csv step byte_length is_blank close_row trim map_csv_rows
numbered_past_blanks = refl
