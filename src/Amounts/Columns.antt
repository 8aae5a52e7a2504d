-- ===== src/Amounts/Columns.antt =====
-- The header of a collection's file (`validateCollectionCsvHeader` in packages/core/src/collections.ts).
use gundam_tcg_hub.Base.{
  ◌≡◌, ◌↔◌, refl, Bool, true, false, if◌then◌else◌, List, [], ◌∷◌, ◌++◌, any, All, map, arith,
}
use gundam_tcg_hub.Text.{Units, units, trim, same_text}
use gundam_tcg_hub.Amounts.Durations.{lower}

abbrev pub known_columns : List Units
known_columns =
    units "set"
    ∷ units "number"
    ∷ units "finish"
    ∷ units "language"
    ∷ units "condition"
    ∷ units "quantity"
    ∷ units "acquired_price"
    ∷ units "currency"
    ∷ units "acquired_at"
    ∷ units "notes"
    ∷ []

abbrev pub required_columns : List Units
required_columns = units "set" ∷ units "number" ∷ units "quantity" ∷ []

-- `new Set(names).has(name)`
abbrev pub contains : List Units → Units → Bool
contains names name = any (same_text name) names

pub data Problem : Type 0 where
  unknown_column : Units → Problem
  duplicate_column : Units → Problem
  missing_column : Units → Problem

-- `name.trim().toLowerCase()`, as far as the names of columns go: no letter outside ASCII turns into one of theirs.
unfoldable pub column_of : Units → Units
column_of name = map lower (trim name)

unfoldable pub is_known : Units → Bool
is_known column = contains known_columns column

abbrev pub problem_of : List Units → Units → Units → List Problem
problem_of seen name column =
    if is_known column
    then if contains seen column then duplicate_column column ∷ [] else []
    else unknown_column name ∷ []

unfoldable pub name_problems : List Units → List Units → List Problem
name_problems seen [] = []
name_problems seen (name ∷ header) =
    problem_of seen name (column_of name) ++ name_problems (column_of name ∷ seen) header

unfoldable pub missing_problems : List Units → List Units → List Problem
missing_problems seen [] = []
missing_problems seen (required ∷ others) =
    let rest = missing_problems seen others in
    if contains seen required then rest else missing_column required ∷ rest

unfoldable pub validate_collection_csv_header : List Units → List Problem
validate_collection_csv_header header =
    name_problems [] header ++ missing_problems (map column_of header) required_columns

-- Each name is one that has not been seen.
abbrev pub Fresh : List Units → List Units → Type 0
Fresh seen [] = Unit
Fresh seen (name ∷ header) =
    (contains seen (column_of name) ≡ false) × Fresh (column_of name ∷ seen) header

abbrev pub Known : Units → Type 0
Known name = is_known (column_of name) ≡ true

append-empty : (xs ys : List Problem) → (xs ++ ys ≡ []) ↔ ((xs ≡ []) × (ys ≡ []))
append-empty [] ys = ((λ h. (refl, h)), λ h. h.1)
append-empty (x ∷ xs) ys = (λ h. cc, λ h. cc)

problem_of_iff :
    (seen : List Units) (name column : Units)
    → (problem_of seen name column ≡ [])
      ↔ ((is_known column ≡ true) × (contains seen column ≡ false))
problem_of_iff seen name column = ground arith

name_problems_iff :
    (seen header : List Units)
    → (name_problems seen header ≡ []) ↔ (All Known header × Fresh seen header)
unfolding name_problems
name_problems_iff seen [] = (λ h. (tt, tt), λ h. refl)
name_problems_iff seen (name ∷ header) =
    let column = column_of name in
    let (split, join) =
      append-empty (problem_of seen name column) (name_problems (column ∷ seen) header) in
    let (ok, fine) = problem_of_iff seen name column in
    let (rest, back) = name_problems_iff (column ∷ seen) header in
    (
      λ h.
          let (a, b) = split h in
          let (known, fresh) = ok a in
          let (others, free) = rest b in ((known, others), (fresh, free)),
      λ h.
          let ((known, others), (fresh, free)) = h in
          join (fine (known, fresh), back (others, free)),
    )

missing_problems_iff :
    (seen required : List Units)
    → (missing_problems seen required ≡ []) ↔ All (λ r. contains seen r ≡ true) required
unfolding missing_problems
missing_problems_iff seen [] = (λ h. tt, λ h. refl)
missing_problems_iff seen (r ∷ rs) = ground (arith, missing_problems_iff seen rs)

-- A header has no problem exactly if every name is the name of a column that the importer knows, white space around it
-- and capitals aside, no column stands twice, and the three required columns are there.
pub validate_header_iff :
    (header : List Units)
    → (validate_collection_csv_header header ≡ []) ↔ (
        All Known header
        × Fresh [] header
        × All (λ r. contains (map column_of header) r ≡ true) required_columns)
unfolding validate_collection_csv_header
validate_header_iff header =
    let (split, join) =
      append-empty (name_problems [] header)
        (missing_problems (map column_of header) required_columns) in
    let (names, names_back) = name_problems_iff [] header in
    let (required, required_back) = missing_problems_iff (map column_of header) required_columns in
    (
      λ h. let (a, b) = split h in let (known, fresh) = names a in (known, fresh, required b),
      λ h. let (known, fresh, there) = h in join (names_back (known, fresh), required_back there),
    )
