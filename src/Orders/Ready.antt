-- ===== src/Orders/Ready.antt =====
-- The orders that are ready to complete (`ordersReadyToComplete` in
-- packages/db/src/queries/orders.ts) are rows of the table, each once.
use gundam_tcg_hub.Base.{
  ℕ, zero, suc, ◌≡◌, refl, Bool, true, false, none, some, [], ◌∷◌, leb, if◌then◌else◌, take, get_or,
  ◌≢◌, arith, inl, inr, ==_iff, ==_refl, Bool-cases,
}
use gundam_tcg_hub.Base.Table.{Table, find, select_rows, Distinct}
use gundam_tcg_hub.Orders.Schema.{Order, Store}
use gundam_tcg_hub.Orders.Nightly.{due_row, insert_by_date, sort_by_date, orders_ready_to_complete}

-- Every row of the table has the property.
unfoldable pub AllRows : (ℕ → Order → Type 0) → Table Order → Type 0
AllRows P [] = Unit
AllRows P ((id, o) ∷ t) = P id o × AllRows P t

module _ (P : ℕ → Order → Type 0) where
  if-AllRows :
      (b : Bool) (t u : Table Order) → AllRows P t → AllRows P u → AllRows P (if b then t else u)
  if-AllRows true t u a c = a
  if-AllRows false t u a c = c

  pub insert_by_date-AllRows :
      (id : ℕ) (o : Order) (t : Table Order)
      → P id o
      → AllRows P t
      → AllRows P (insert_by_date id o t)
  unfolding AllRows
  insert_by_date-AllRows id o [] p a = (p, tt)
  insert_by_date-AllRows id o ((j, q) ∷ t) p (b, a) =
      if-AllRows (leb (get_or o.delivered_at 0) (get_or q.delivered_at 0)) _ _ (p, (b, a))
        (b, insert_by_date-AllRows id o t p a)

  sort_by_date-AllRows : (t : Table Order) → AllRows P t → AllRows P (sort_by_date t)
  unfolding AllRows sort_by_date
  sort_by_date-AllRows [] a = tt
  sort_by_date-AllRows ((id, o) ∷ t) (p, a) =
      insert_by_date-AllRows id o (sort_by_date t) p (sort_by_date-AllRows t a)

  take-AllRows : (n : ℕ) (t : Table Order) → AllRows P t → AllRows P (take n t)
  unfolding AllRows
  take-AllRows zero t a = tt
  take-AllRows (suc n) [] a = tt
  take-AllRows (suc n) ((id, o) ∷ t) (p, a) = (p, take-AllRows n t a)

  pub AllRows-map :
      (Q : ℕ → Order → Type 0) (t : Table Order)
      → ((id : ℕ) (o : Order) → P id o → Q id o)
      → AllRows P t
      → AllRows Q t
  unfolding AllRows
  AllRows-map Q [] f a = tt
  AllRows-map Q ((id, o) ∷ t) f (p, a) = (f id o p, AllRows-map Q t f a)

abbrev pub Selected : (ℕ → Order → Bool) → Table Order → ℕ → Order → Type 0
Selected p t id o = (find id t ≡ some o) × (p id o ≡ true)

Selected-later :
    (p : ℕ → Order → Bool) (j : ℕ) (v : Order) (t : Table Order) (id : ℕ) (o : Order)
    → find j t ≡ none
    → find id t ≡ some o
    → p id o ≡ true
    → Selected p ((j, v) ∷ t) id o
unfolding find
Selected-later p j v t id o n e d = (ground (arith, ==_iff j id), d)

select_rows-Selected :
    (p : ℕ → Order → Bool) (t : Table Order) → Distinct t → AllRows (Selected p t) (select_rows p t)
unfolding AllRows select_rows find
select_rows-Selected p [] h = tt
select_rows-Selected p ((j, v) ∷ t) h =
    let rest =
      AllRows-map (Selected p t) (Selected p ((j, v) ∷ t)) (select_rows p t)
        (λ id o (e, d). Selected-later p j v t id o h.0 e d) (select_rows-Selected p t h.1) in
    elim (Bool-cases (p j v)) [ inl q ↦ rw q ((rw ==_refl refl, q), rest) | inr q ↦ rw q rest ]

pub ready-Selected :
    (now days : ℕ) (s : Store)
    → Distinct s.orders
    → AllRows (Selected (due_row now days) s.orders) (orders_ready_to_complete now days s)
unfolding orders_ready_to_complete
ready-Selected now days s h =
    take-AllRows _ 200 _ (sort_by_date-AllRows _ _ (select_rows-Selected _ s.orders h))

find-insert_by_date :
    (j id : ℕ) (o : Order) (t : Table Order)
    → j ≢ id
    → find j t ≡ none
    → find j (insert_by_date id o t) ≡ none
unfolding find
find-insert_by_date j id o [] n e = ground (arith, ==_iff id j)
find-insert_by_date j id o ((i, p) ∷ t) n e =
    ground (arith, ==_iff id j, find-insert_by_date j id o t n)

insert_by_date-Distinct :
    (id : ℕ) (o : Order) (t : Table Order)
    → find id t ≡ none
    → Distinct t
    → Distinct (insert_by_date id o t)
unfolding find
insert_by_date-Distinct id o [] n d = (refl, tt)
insert_by_date-Distinct id o ((j, p) ∷ t) n (e, d) =
    elim (Bool-cases (leb (get_or o.delivered_at 0) (get_or p.delivered_at 0))) [
      | inl q ↦ rw q (n, (e, d))
      | inr q ↦ rw q (
        find-insert_by_date j id o t (ground (arith, ==_refl id, n)) e,
        insert_by_date-Distinct id o t (ground (arith, n)) d,
      )
    ]

pub find-sort_by_date : (j : ℕ) (t : Table Order) → find j t ≡ none → find j (sort_by_date t) ≡ none
unfolding find sort_by_date
find-sort_by_date j [] e = refl
find-sort_by_date j ((id, o) ∷ t) e =
    find-insert_by_date j id o (sort_by_date t) (ground (arith, ==_refl id, e))
      (find-sort_by_date j t (ground (arith, e)))

sort_by_date-Distinct : (t : Table Order) → Distinct t → Distinct (sort_by_date t)
unfolding sort_by_date
sort_by_date-Distinct [] d = tt
sort_by_date-Distinct ((id, o) ∷ t) (n, d) =
    insert_by_date-Distinct id o (sort_by_date t) (find-sort_by_date id t n)
      (sort_by_date-Distinct t d)

find-take : (n j : ℕ) (t : Table Order) → find j t ≡ none → find j (take n t) ≡ none
unfolding find
find-take zero j t e = refl
find-take (suc n) j [] e = refl
find-take (suc n) j ((id, o) ∷ t) e = ground (arith, find-take n j t)

take-Distinct : (n : ℕ) (t : Table Order) → Distinct t → Distinct (take n t)
take-Distinct zero t d = tt
take-Distinct (suc n) [] d = tt
take-Distinct (suc n) ((id, o) ∷ t) (e, d) = (find-take n id t e, take-Distinct n t d)

find-select_rows :
    (p : ℕ → Order → Bool) (j : ℕ) (t : Table Order)
    → find j t ≡ none
    → find j (select_rows p t) ≡ none
unfolding find select_rows
find-select_rows p j [] e = refl
find-select_rows p j ((id, o) ∷ t) e = ground (arith, find-select_rows p j t)

pub select_rows-Distinct :
    (p : ℕ → Order → Bool) (t : Table Order) → Distinct t → Distinct (select_rows p t)
unfolding select_rows
select_rows-Distinct p [] d = tt
select_rows-Distinct p ((id, o) ∷ t) (e, d) = elim (Bool-cases (p id o)) [
  | inl q ↦ rw q (find-select_rows p id t e, select_rows-Distinct p t d)
  | inr q ↦ rw q (select_rows-Distinct p t d)
]

pub ready-Distinct :
    (now days : ℕ) (s : Store) → Distinct s.orders → Distinct (orders_ready_to_complete now days s)
unfolding orders_ready_to_complete
ready-Distinct now days s d =
    take-Distinct 200 _ (sort_by_date-Distinct _ (select_rows-Distinct _ s.orders d))
