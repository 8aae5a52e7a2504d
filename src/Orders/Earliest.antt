-- ===== src/Orders/Earliest.antt =====
-- What the sort by date, the limit and the selection of `ordersReadyToComplete` in
-- packages/db/src/queries/orders.ts keep: a row of the table that is selected is listed, unless the
-- limit is spent on earlier ones.
use gundam_tcg_hub.Base.{
  ℕ, zero, suc, ◌≤◌, ◌≡◌, refl, Bool, true, none, some, [], ◌∷◌, ◌==◌, leb, take, get_or, length,
  arith, inl, inr, ==_iff, ==_refl, Bool-cases, ◌∙◌,
}
use gundam_tcg_hub.Base.Table.{Table, find, select_rows, Distinct}
use gundam_tcg_hub.Orders.Schema.{Order}
use gundam_tcg_hub.Orders.Nightly.{insert_by_date, sort_by_date}
use gundam_tcg_hub.Orders.Ready.{AllRows, AllRows-map, find-sort_by_date, insert_by_date-AllRows}

abbrev pub date : Order → ℕ
date o = get_or o.delivered_at 0

pub AllRows-find :
    (P : ℕ → Order → Type 0) (t : Table Order) (j : ℕ) (o : Order)
    → AllRows P t
    → find j t ≡ some o
    → P j o
unfolding AllRows find
AllRows-find P [] j o a e = absurd (cc)
AllRows-find P ((i, q) ∷ t) j o (p, a) e = elim (Bool-cases (i == j)) [
  | inl same ↦ ground (arith, ==_iff i j)
  | inr other ↦ AllRows-find P t j o a (ground arith)
]

pub find-select_rows_kept :
    (p : ℕ → Order → Bool) (t : Table Order) (j : ℕ) (o : Order)
    → find j t ≡ some o
    → p j o ≡ true
    → find j (select_rows p t) ≡ some o
unfolding find select_rows
find-select_rows_kept p [] j o e h = e
find-select_rows_kept p ((i, q) ∷ t) j o e h =
    ground (arith, ==_iff i j, find-select_rows_kept p t j o)

find-insert_by_date_kept :
    (j id : ℕ) (o : Order) (t : Table Order)
    → find id t ≡ none
    → find j (insert_by_date id o t) ≡ find j ((id, o) ∷ t)
unfolding find
find-insert_by_date_kept j id o [] n = refl
find-insert_by_date_kept j id o ((i, p) ∷ t) n =
    ground (arith, ==_iff i j, ==_iff id j, ==_refl id, find-insert_by_date_kept j id o t)

pub find-sort_by_date_kept :
    (j : ℕ) (t : Table Order) → Distinct t → find j (sort_by_date t) ≡ find j t
unfolding find sort_by_date
find-sort_by_date_kept j [] d = refl
find-sort_by_date_kept j ((i, p) ∷ t) (n, d) =
    find-insert_by_date_kept j i p (sort_by_date t) (find-sort_by_date i t n)
    ∙ ground (arith, find-sort_by_date_kept j t d)

-- The dates do not fall.
abbrev pub InOrder : Table Order → Type 0
InOrder [] = Unit
InOrder ((i, o) ∷ t) = AllRows (λ j p. date o ≤ date p) t × InOrder t

insert_by_date-InOrder :
    (id : ℕ) (o : Order) (t : Table Order) → InOrder t → InOrder (insert_by_date id o t)
unfolding AllRows
insert_by_date-InOrder id o [] s = (tt, tt)
insert_by_date-InOrder id o ((j, p) ∷ t) (a, s) = elim (Bool-cases (leb (date o) (date p))) [
  | inl first ↦
      let before : date o ≤ date p = ground arith in
      rw first ((before, AllRows-map _ (λ i q. date o ≤ date q) t (λ i q h. omega arith) a), (a, s))
  | inr later ↦ rw later (
    insert_by_date-AllRows (λ i q. date p ≤ date q) id o t (ground arith) a,
    insert_by_date-InOrder id o t s,
  )
]

pub sort_by_date-InOrder : (t : Table Order) → InOrder (sort_by_date t)
unfolding sort_by_date
sort_by_date-InOrder [] = tt
sort_by_date-InOrder ((i, o) ∷ t) =
    insert_by_date-InOrder i o (sort_by_date t) (sort_by_date-InOrder t)

-- A row that the limit cuts off comes after as many rows as the limit takes.
pub take-InOrder :
    (n : ℕ) (t : Table Order) (j : ℕ) (o : Order)
    → InOrder t
    → find j t ≡ some o
    → find j (take n t) ≡ none
    → (length (take n t) ≡ n) × AllRows (λ i p. date p ≤ date o) (take n t)
unfolding AllRows find
take-InOrder zero t j o s e n = (refl, tt)
take-InOrder (suc m) [] j o s e n = absurd (cc)
take-InOrder (suc m) ((i, p) ∷ t) j o (a, s) e n = elim (Bool-cases (i == j)) [
  | inl same ↦ absurd (ground arith)
  | inr other ↦
      let there : find j t ≡ some o = ground arith in
      let (len, rest) = take-InOrder m t j o s there (ground arith) in
      (omega (arith, len), (AllRows-find (λ k q. date p ≤ date q) t j o a there, rest))
]

length-insert_by_date :
    (id : ℕ) (o : Order) (t : Table Order) → length (insert_by_date id o t) ≡ suc (length t)
length-insert_by_date id o [] = refl
length-insert_by_date id o ((j, p) ∷ t) = ground (arith, length-insert_by_date id o t)

pub length-sort_by_date : (t : Table Order) → length (sort_by_date t) ≡ length t
unfolding sort_by_date
length-sort_by_date [] = refl
length-sort_by_date ((i, o) ∷ t) =
    length-insert_by_date i o (sort_by_date t) ∙ omega (arith, length-sort_by_date t)
