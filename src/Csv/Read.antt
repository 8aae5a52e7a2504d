-- ===== src/Csv/Read.antt =====
-- The import half of packages/security/src/csv.ts: `parseCsv`, its loop over the characters, and
-- `mapCsvRows`.
use gundam_tcg_hub.Base.{
  ℕ, suc, ◌+◌, Bool, true, false, not, ◌&&◌, ◌||◌, ◌==◌, ltb, if◌then◌else◌, List, [], ◌∷◌, ◌++◌,
  length, map, Option, none, some,
}
use gundam_tcg_hub.Text.{Units, first, trim, byte_length, same_text}

-- `CsvLimitError` and `CsvFormatError`, by what they say.
pub data CsvError : Type 0 where
  file_too_large too_many_rows : CsvError
  quote_in_field : ℕ → CsvError
  ends_in_quotes no_header : CsvError

pub data CsvResult {ℓ} (A : Type ℓ) : Type ℓ where
  ok : A → CsvResult A
  err : CsvError → CsvResult A

-- The variables of the loop.
pub record Scanner : Type 0 where
  pub rows : List (List Units)
  pub row : List Units
  pub field : Units
  pub in_quotes : Bool
  pub saw_any_char : Bool

abbrev pub start : Scanner
start = record { rows = []; row = []; field = []; in_quotes = false; saw_any_char = false }

abbrev pub end_field : Scanner → Scanner
end_field s = record s { row = s.row ++ (s.field ∷ []); field = [] }

-- `row.length === 1 && row[0] === ''`
unfoldable pub is_blank : List Units → Bool
is_blank ([] ∷ []) = true
is_blank row = false

abbrev pub push_row : List (List Units) → List Units → List (List Units)
push_row rows row = if is_blank row then rows else rows ++ (row ∷ [])

-- `endRow` after `endField`.
unfoldable pub close_row : ℕ → Scanner → CsvResult Scanner
close_row max_rows t =
    let rows = push_row t.rows t.row in
    if ltb (max_rows + 1) (length rows)
    then err too_many_rows
    else ok (record t { rows = rows; row = [] })

unfoldable pub end_row : ℕ → Scanner → CsvResult Scanner
unfolding close_row
end_row max_rows s = close_row max_rows (end_field s)

-- Whether the next character is `c`.
abbrev pub next_is : ℕ → Option ℕ → Bool
next_is c none = false
next_is c (some d) = d == c

-- The end of a row, and whether the loop steps over a character.
abbrev pub skipping : Bool → CsvResult Scanner → CsvResult (Scanner × Bool)
skipping skip (ok s) = ok (s, skip)
skipping skip (err e) = err e

-- One round of the loop at the character `c`, before `next`; the flag says that the round has taken
-- `next` too (`i += 1`).
unfoldable pub step : ℕ → Scanner → ℕ → Option ℕ → CsvResult (Scanner × Bool)
unfolding end_row
step max_rows s' c next =
    let s = record s' { saw_any_char = true } in
    if s.in_quotes
    then (if c == b'"'
        then (if next_is b'"' next
            then ok (record s { field = s.field ++ (b'"' ∷ []) }, true)
            else ok (record s { in_quotes = false }, false))
        else ok (record s { field = s.field ++ (c ∷ []) }, false))
    else if c == b'"'
    then (if ltb 0 (length s.field)
        then err (quote_in_field (length s.rows + 1))
        else ok (record s { in_quotes = true }, false))
    else if c == b','
    then ok (end_field s, false)
    else if c == 10
    then skipping false (end_row max_rows s)
    else if c == 13
    then skipping (next_is 10 next) (end_row max_rows s)
    else ok (record s { field = s.field ++ (c ∷ []) }, false)

unfoldable pub scan : ℕ → Scanner → Bool → Units → CsvResult Scanner
scan max_rows s skip [] = ok s
scan max_rows s true (c ∷ cs) = scan max_rows s false cs
scan max_rows s false (c ∷ cs) = elim (step max_rows s c (first cs)) [
  | err e ↦ err e
  | ok (t, skip) ↦ scan max_rows t skip cs
]

pub record CsvDocument : Type 0 where
  pub header : List Units
  pub rows : List (List Units)

-- The last row of a file that does not end in a line break.
unfoldable pub last_row : ℕ → Scanner → CsvResult Scanner
unfolding end_row
last_row max_rows s =
    if s.in_quotes
    then err ends_in_quotes
    else if s.saw_any_char && (ltb 0 (length s.field) || ltb 0 (length s.row))
    then end_row max_rows s
    else ok s

unfoldable pub take_header : ℕ → List (List Units) → CsvResult CsvDocument
take_header max_rows [] = err no_header
take_header max_rows (h ∷ rows) =
    if ltb max_rows (length rows)
    then err too_many_rows
    else ok (record { header = map trim h; rows = rows })

-- What stands after the loop.
unfoldable pub finish : ℕ → CsvResult Scanner → CsvResult CsvDocument
unfolding last_row take_header
finish max_rows (err e) = err e
finish max_rows (ok s) = elim (last_row max_rows s) [
  | err e ↦ err e
  | ok t ↦ take_header max_rows t.rows
]

-- The byte-order mark goes.
unfoldable pub without_mark : Units → Units
without_mark [] = []
without_mark (c ∷ s) = if c == 65279 then s else c ∷ s

abbrev pub default_max_rows : ℕ
default_max_rows = 5000

abbrev pub default_max_bytes : ℕ
default_max_bytes = 2097152

unfoldable pub parse_csv : ℕ → ℕ → Units → CsvResult CsvDocument
unfolding scan finish without_mark byte_length
parse_csv max_rows max_bytes text =
    if ltb max_bytes (byte_length text)
    then err file_too_large
    else finish max_rows (scan max_rows start false (without_mark text))

-- An object with the columns' names as keys.
abbrev pub Record : Type 0
Record = List (Units × Units)

-- `Object.fromEntries`: a later entry of the same name replaces the earlier one.
unfoldable pub assign : Units → Units → Record → Record
unfolding same_text
assign name value [] = (name, value) ∷ []
assign name value ((n, v) ∷ r) =
    if same_text n name then (n, value) ∷ r else (n, v) ∷ assign name value r

-- `(cells.at(column) ?? '').trim()` for each name of the header, from the left.
unfoldable pub from_entries : List Units → List Units → Record → Record
unfolding assign
from_entries [] cells r = r
from_entries (n ∷ names) [] r = from_entries names [] (assign n (trim []) r)
from_entries (n ∷ names) (c ∷ cells) r = from_entries names cells (assign n (trim c) r)

pub record RowError : Type 0 where
  pub row : ℕ
  pub expected : ℕ
  pub found : ℕ

pub record MappedRows : Type 0 where
  pub records : List Record
  pub row_numbers : List ℕ
  pub errors : List RowError

-- One row, at its place in the file.
abbrev pub map_row : List Units → ℕ → List Units → MappedRows → MappedRows
map_row header row_number cells m =
    if not (length cells == length header)
    then record m {
      errors =
          m.errors
          ++ (record { row = row_number; expected = length header; found = length cells } ∷ []);
    }
    else record m {
      records = m.records ++ (from_entries header cells [] ∷ []);
      row_numbers = m.row_numbers ++ (row_number ∷ []);
    }

unfoldable pub map_rows_from : List Units → ℕ → List (List Units) → MappedRows → MappedRows
unfolding from_entries
map_rows_from header row_number [] m = m
map_rows_from header row_number (cells ∷ rows) m =
    map_rows_from header (suc row_number) rows (map_row header row_number cells m)

unfoldable pub map_csv_rows : CsvDocument → MappedRows
unfolding map_rows_from
map_csv_rows doc =
    map_rows_from doc.header 2 doc.rows (record { records = []; row_numbers = []; errors = [] })
