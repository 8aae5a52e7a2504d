-- ===== src/Csv/Write.antt =====
-- The export half of packages/security/src/csv.ts. A cell is `none` for null and undefined, and else the
-- text that the value has: a string itself, or what `toString`, `toISOString` or `JSON.stringify`
-- makes of it.
use gundam_tcg_hub.Base.{
  ℕ, Bool, false, ◌||◌, ◌==◌, if◌then◌else◌, List, [], ◌∷◌, ◌++◌, map, Option, none, some,
}
use gundam_tcg_hub.Text.{Units}

-- `FORMULA_PREFIXES`: `=`, `+`, `-`, `@`, tab and carriage return.
unfoldable pub is_formula_prefix : ℕ → Bool
is_formula_prefix c =
    (c == b'=') || (c == b'+') || (c == b'-') || (c == b'@') || (c == 9) || (c == 13)

unfoldable pub starts_formula : Units → Bool
unfolding is_formula_prefix
starts_formula [] = false
starts_formula (c ∷ s) = is_formula_prefix c

-- `safe`: the apostrophe before a formula.
unfoldable pub guard_formula : Units → Units
unfolding starts_formula
guard_formula s = if starts_formula s then b'\'' ∷ s else s

-- `replaceAll('"', '""')`
unfoldable pub double_quotes : Units → Units
double_quotes [] = []
double_quotes (c ∷ s) =
    let rest = double_quotes s in if c == b'"' then b'"' ∷ b'"' ∷ rest else c ∷ rest

-- What the reader of the export sees in the cell.
unfoldable pub cell_text : Option Units → Units
unfolding guard_formula
cell_text none = []
cell_text (some s) = guard_formula s

unfoldable pub csv_cell : Option Units → Units
unfolding cell_text double_quotes
csv_cell v = b'"' ∷ (double_quotes (cell_text v) ++ (b'"' ∷ []))

-- `values.map(csvCell).join(',')`
unfoldable pub csv_row : List (Option Units) → Units
unfolding csv_cell
csv_row [] = []
csv_row (v ∷ []) = csv_cell v
csv_row (v ∷ w ∷ vs) = csv_cell v ++ (b',' ∷ csv_row (w ∷ vs))

-- `join('\r\n')`
unfoldable pub join_lines : List Units → Units
join_lines [] = []
join_lines (l ∷ []) = l
join_lines (l ∷ m ∷ ls) = l ++ (13 ∷ 10 ∷ join_lines (m ∷ ls))

unfoldable pub to_csv : List (Option Units) → List (List (Option Units)) → Units
unfolding csv_row join_lines
to_csv header rows = join_lines (csv_row header ∷ map csv_row rows)
