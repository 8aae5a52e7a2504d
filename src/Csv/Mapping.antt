-- ===== src/Csv/Mapping.antt =====
-- Rows as records under the header's names (`mapCsvRows` in packages/security/src/csv.ts).
use mathlib.Core.List.{append-nil, append_assoc}
use gundam_tcg_hub.Base.{
  ℕ, zero, suc, ◌≡◌, refl, Bool, true, not, ◌==◌, if◌then◌else◌, List, [], ◌∷◌, ◌++◌, length,
  Option, none, some, get_or, get_elem?, drop, arith, Bool-cases, inl, inr, any, map, ◌∙◌,
}
use gundam_tcg_hub.Text.{Units, trim, same_text, same_text_iff}
use gundam_tcg_hub.Csv.Read.{
  CsvDocument, Record, assign, from_entries, RowError, MappedRows, map_row, map_rows_from,
  map_csv_rows,
}

-- Each row with its number, counted from `n`.
unfoldable pub numbered : ℕ → List (List Units) → List (ℕ × List Units)
numbered n [] = []
numbered n (cells ∷ rows) = (n, cells) ∷ numbered (suc n) rows

-- The elements that pass a test, in their order.
unfoldable pub those {ℓ} : {A : Type ℓ} → (A → Bool) → List A → List A
those p [] = []
those p (x ∷ xs) = let rest = those p xs in if p x then x ∷ rest else rest

abbrev pub fits : List Units → ℕ × List Units → Bool
fits header r = length r.1 == length header

abbrev pub misfits : List Units → ℕ × List Units → Bool
misfits header r = not (fits header r)

abbrev pub as_record : List Units → ℕ × List Units → Record
as_record header r = from_entries header r.1 []

abbrev pub as_number : ℕ × List Units → ℕ
as_number r = r.0

abbrev pub as_error : List Units → ℕ × List Units → RowError
as_error header r = record { row = r.0; expected = length header; found = length r.1 }

-- What the numbered rows make, behind what is there already.
abbrev sorted_out : List Units → List (ℕ × List Units) → MappedRows → MappedRows
sorted_out header rows m = record {
  records = m.records ++ map (as_record header) (those (fits header) rows);
  row_numbers = m.row_numbers ++ map as_number (those (fits header) rows);
  errors = m.errors ++ map (as_error header) (those (misfits header) rows);
}

-- The rows under the header, counted from 2, told apart by their length.
abbrev pub map_reference : CsvDocument → MappedRows
map_reference doc =
    let rows = numbered 2 doc.rows in
    record {
      records = map (as_record doc.header) (those (fits doc.header) rows);
      row_numbers = map as_number (those (fits doc.header) rows);
      errors = map (as_error doc.header) (those (misfits doc.header) rows);
    }

map_rows_from-sorted_out :
    (header : List Units) (n : ℕ) (rows : List (List Units)) (m : MappedRows)
    → map_rows_from header n rows m ≡ sorted_out header (numbered n rows) m
unfolding map_rows_from numbered those
map_rows_from-sorted_out header n [] m = simp (append-nil)
map_rows_from-sorted_out header n (cells ∷ rows) m =
    elim (Bool-cases (length cells == length header)) [
      | inl same ↦
          map_rows_from-sorted_out header (suc n) rows (map_row header n cells m)
          ∙ rw same (simp (append_assoc))
      | inr other ↦
          map_rows_from-sorted_out header (suc n) rows (map_row header n cells m)
          ∙ rw other (simp (append_assoc))
    ]

-- The value of a record's field.
unfoldable pub lookup : Units → Record → Option Units
lookup name [] = none
lookup name ((n, v) ∷ r) = if same_text n name then some v else lookup name r

same_text_refl : (s : Units) → same_text s s ≡ true
same_text_refl s = (same_text_iff s s).1 refl

lookup-assign :
    (k n v : Units) (r : Record)
    → lookup k (assign n v r) ≡ (if same_text n k then some v else lookup k r)
unfolding lookup assign
lookup-assign k n v [] = refl
lookup-assign k n v ((j, w) ∷ r) =
    ground (arith, same_text_iff n k, same_text_iff j n, same_text_iff j k, lookup-assign k n v r)

-- No name of the list is `k`.
abbrev pub absent : Units → List Units → Bool
absent k names = not (any (λ n. same_text n k) names)

lookup-from_entries-absent :
    (k : Units) (names cells : List Units) (r : Record)
    → absent k names ≡ true
    → lookup k (from_entries names cells r) ≡ lookup k r
unfolding from_entries
lookup-from_entries-absent k [] cells r h = refl
lookup-from_entries-absent k (n ∷ names) [] r h =
    lookup-from_entries-absent k names [] (assign n (trim []) r) (ground arith)
    ∙ ground (arith, lookup-assign k n (trim []) r)
lookup-from_entries-absent k (n ∷ names) (c ∷ cells) r h =
    lookup-from_entries-absent k names cells (assign n (trim c) r) (ground arith)
    ∙ ground (arith, lookup-assign k n (trim c) r)

-- A record's field of the name `k` is the trimmed cell of the last column that has this name.
pub lookup-from_entries :
    (k : Units) (i : ℕ) (names cells : List Units) (r : Record)
    → get_elem? names i ≡ some k
    → absent k (drop (suc i) names) ≡ true
    → lookup k (from_entries names cells r) ≡ some (trim (get_or (get_elem? cells i) []))
unfolding from_entries
lookup-from_entries k i [] cells r e h = absurd (cc)
lookup-from_entries k zero (n ∷ names) [] r e h =
    lookup-from_entries-absent k names [] (assign n (trim []) r) h
    ∙ ground (arith, lookup-assign k n (trim []) r, same_text_iff n k)
lookup-from_entries k zero (n ∷ names) (c ∷ cells) r e h =
    lookup-from_entries-absent k names cells (assign n (trim c) r) h
    ∙ ground (arith, lookup-assign k n (trim c) r, same_text_iff n k)
lookup-from_entries k (suc i) (n ∷ names) [] r e h =
    lookup-from_entries k i names [] (assign n (trim []) r) e h
lookup-from_entries k (suc i) (n ∷ names) (c ∷ cells) r e h =
    lookup-from_entries k i names cells (assign n (trim c) r) e h

-- The rows under the header are counted from 2, in the order in which the parser kept them. Those with
-- as many cells as the header has names become the records, in their order and beside their numbers,
-- and all the others the errors, in their order, with their number and both lengths. A record's field
-- is the trimmed cell of the last column that has the field's name.
pub map_csv_rows-eq-reference :
    (doc : CsvDocument)
    → (map_csv_rows doc ≡ map_reference doc)
      × ((name : Units) (i : ℕ) (r : ℕ × List Units)
          → get_elem? doc.header i ≡ some name
          → absent name (drop (suc i) doc.header) ≡ true
          → lookup name (as_record doc.header r) ≡ some (trim (get_or (get_elem? r.1 i) [])))
unfolding map_csv_rows
map_csv_rows-eq-reference doc = (
  map_rows_from-sorted_out doc.header 2 doc.rows _,
  λ name i r e h. lookup-from_entries name i doc.header r.1 [] e h,
)
