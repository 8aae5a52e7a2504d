-- ===== src/Csv/Limits.antt =====
-- What `parseCsv` never lets through, and what the export never contains
-- (packages/security/src/csv.ts).
use gundam_tcg_hub.Base.{
  ℕ, ◌≡◌, ◌≤◌, refl, Bool, true, false, List, [], ◌∷◌, ◌++◌, length, All, Option, arith, Bool-cases,
  inl, inr, ◌⊎◌, ◌≢◌, subst,
}
use gundam_tcg_hub.Text.{Units, first, byte_length}
use gundam_tcg_hub.Csv.Write.{starts_formula}
use gundam_tcg_hub.Csv.Read.{
  CsvResult, CsvError, ok, err, Scanner, start, end_field, is_blank, push_row, close_row, end_row,
  step, scan, CsvDocument, last_row, take_header, finish, without_mark, parse_csv,
}

-- No row that has been kept is blank.
abbrev pub NotBlank : List Units → Type 0
NotBlank row = is_blank row ≡ false

All-append {ℓ κ} :
    {A : Type ℓ} (P : A → Type κ) (xs ys : List A) → All P xs → All P ys → All P (xs ++ ys)
All-append P [] ys a b = b
All-append P (x ∷ xs) ys (p, a) b = (p, All-append P xs ys a b)

push_row-NotBlank :
    (rows : List (List Units)) (row : List Units)
    → All NotBlank rows
    → All NotBlank (push_row rows row)
push_row-NotBlank rows row a = elim (Bool-cases (is_blank row)) [
  | inl lost ↦ rw lost a
  | inr kept ↦ rw kept (All-append NotBlank rows (row ∷ []) a (kept, tt))
]

close_row-NotBlank :
    (max_rows : ℕ) (s t : Scanner)
    → All NotBlank s.rows
    → close_row max_rows s ≡ ok t
    → All NotBlank t.rows
unfolding close_row
close_row-NotBlank max_rows s t a h =
    let e : t.rows ≡ push_row s.rows s.row = ground arith in rw e (push_row-NotBlank s.rows s.row a)

-- The scanner that a round closes the row of.
abbrev closing : Scanner → Scanner
closing s = end_field (record s { saw_any_char = true })

-- A round of the loop keeps the rows, or closes one.
step_rows :
    (max_rows : ℕ) (s t : Scanner) (c : ℕ) (next : Option ℕ) (skip : Bool)
    → step max_rows s c next ≡ ok (t, skip)
    → (t.rows ≡ s.rows) ⊎ (close_row max_rows (closing s) ≡ ok t)
unfolding step end_row
step_rows max_rows s t c next skip h = ground arith

step-NotBlank :
    (max_rows : ℕ) (s t : Scanner) (c : ℕ) (next : Option ℕ) (skip : Bool)
    → step max_rows s c next ≡ ok (t, skip)
    → All NotBlank s.rows
    → All NotBlank t.rows
step-NotBlank max_rows s t c next skip h a = elim (step_rows max_rows s t c next skip h) [
  | inl e ↦ rw e a
  | inr e ↦ close_row-NotBlank max_rows (closing s) t a e
]

Result-cases :
    {A : Type 0} (r : CsvResult A) → ((a : A) × (r ≡ ok a)) ⊎ ((e : CsvError) × (r ≡ err e))
Result-cases (ok a) = inl (a, refl)
Result-cases (err e) = inr (e, refl)

scan-NotBlank :
    (max_rows : ℕ) (cs : Units) (s t : Scanner) (skip : Bool)
    → scan max_rows s skip cs ≡ ok t
    → All NotBlank s.rows
    → All NotBlank t.rows
unfolding scan
scan-NotBlank max_rows [] s t skip h a = let e : s ≡ t = cc in rw (← e) a
scan-NotBlank max_rows (c ∷ cs) s t true h a = scan-NotBlank max_rows cs s t false h a
scan-NotBlank max_rows (c ∷ cs) s t false h a = elim (Result-cases (step max_rows s c (first cs))) [
  | inl ((u, skip), e) ↦
      scan-NotBlank max_rows cs u t skip (ground (arith, e))
        (step-NotBlank max_rows s u c (first cs) skip e a)
  | inr (x, e) ↦ absurd (ground (arith, e))
]

last_row_rows :
    (max_rows : ℕ) (s t : Scanner)
    → last_row max_rows s ≡ ok t
    → (s ≡ t) ⊎ (close_row max_rows (end_field s) ≡ ok t)
unfolding last_row end_row
last_row_rows max_rows s t h = ground arith

last_row-NotBlank :
    (max_rows : ℕ) (s t : Scanner)
    → last_row max_rows s ≡ ok t
    → All NotBlank s.rows
    → All NotBlank t.rows
last_row-NotBlank max_rows s t h a = elim (last_row_rows max_rows s t h) [
  | inl e ↦ rw (← e) a
  | inr e ↦ close_row-NotBlank max_rows (end_field s) t a e
]

header_taken :
    (max_rows : ℕ) (rows : List (List Units)) (doc : CsvDocument)
    → take_header max_rows rows ≡ ok doc
    → (h : List Units) × (rows ≡ h ∷ doc.rows) × (length doc.rows ≤ max_rows)
unfolding take_header
header_taken max_rows [] doc e = absurd (cc)
header_taken max_rows (h ∷ rows) doc e = (h, ground arith, ground arith)

finish_inversion :
    (max_rows : ℕ) (s : Scanner) (doc : CsvDocument)
    → finish max_rows (ok s) ≡ ok doc
    → (t : Scanner) × (h : List Units) × (last_row max_rows s ≡ ok t)
      × (t.rows ≡ h ∷ doc.rows)
      × (length doc.rows ≤ max_rows)
unfolding finish
finish_inversion max_rows s doc e = elim (Result-cases (last_row max_rows s)) [
  | inl (t, l) ↦
      let r = header_taken max_rows t.rows doc (ground (arith, l)) in (t, r.0, l, r.1, r.2)
  | inr (x, l) ↦ absurd (ground (arith, l))
]

refused :
    (max_rows max_bytes : ℕ) (text : Units) (doc : CsvDocument) (x : CsvError)
    → scan max_rows start false (without_mark text) ≡ err x
    → parse_csv max_rows max_bytes text ≢ ok doc
unfolding parse_csv finish
refused max_rows max_bytes text doc x e h = ground (arith, e)

-- What is accepted is within the limits: the text's bytes, the rows under the header, and no row is
-- a single empty cell.
pub parse_csv_limits :
    (max_rows max_bytes : ℕ) (text : Units) (doc : CsvDocument)
    → parse_csv max_rows max_bytes text ≡ ok doc
    → (byte_length text ≤ max_bytes) × (length doc.rows ≤ max_rows) × All NotBlank doc.rows
unfolding parse_csv
parse_csv_limits max_rows max_bytes text doc e =
    elim (Result-cases (scan max_rows start false (without_mark text))) [
      | inl (s, scanned) ↦
          let (t, h, ended, header, few) =
            finish_inversion max_rows s doc (ground (arith, scanned)) in
          let all =
            last_row-NotBlank max_rows s t ended
              (scan-NotBlank max_rows (without_mark text) start s false scanned tt) in
          (ground (arith, scanned), few, (subst (All NotBlank) header all).1)
      | inr (x, scanned) ↦ absurd (refused max_rows max_bytes text doc x scanned e)
    ]

-- No spreadsheet takes the text for a formula.
abbrev pub Inert : Units → Type 0
Inert s = starts_formula s ≡ false
