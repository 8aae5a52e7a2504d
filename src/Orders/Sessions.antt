-- ===== src/Orders/Sessions.antt =====
-- What a session can do to an order, and what nobody can (packages/db/src/queries/orders.ts, with the
-- row policies of migrations 0041 and 0043).
use gundam_tcg_hub.Base.{
  subst, ℕ, ◌≡◌, refl, true, some, List, [], ◌∷◌, ◌==◌, arith, Bool-cases, ==_iff, inl, inr, ◌⊎◌,
}
use gundam_tcg_hub.Base.Table.{find, find-write, find-insert}
use gundam_tcg_hub.Order.{OrderStatus, created, shipped, cancelled, disputed}
use gundam_tcg_hub.Orders.Schema.{Order, Store, one_of}
use gundam_tcg_hub.Orders.Db.{Role, web, sees, may_write, is_party}
use gundam_tcg_hub.Orders.Step.{Frozen, Step, kept, opened, edited, advanced, Writes, SameTerms}
use gundam_tcg_hub.Orders.Calls.{
  Call, perform, perform_all, perform_all_induction, perform-Step, role_of,
}

SameTerms-refl : (o : Order) → SameTerms o o
SameTerms-refl o = ground arith

SameTerms-trans : (o p q : Order) → SameTerms o p → SameTerms p q → SameTerms o q
SameTerms-trans o p q h k = ground arith

-- The order is still there, on the terms it was opened with.
abbrev pub Stands : ℕ → Order → Store → Type 0
Stands id o t = (p : Order) × (find id t.orders ≡ some p) × SameTerms o p

written-Stands :
    (role : Role) (id : ℕ) (o o' : Order) (s t : Store)
    → Writes role id o o' s t
    → (j : ℕ) (p : Order) → find j s.orders ≡ some p
    → Stands j p t
written-Stands role id o o' s t w j p e = elim (Bool-cases (id == j)) [
  | inl same ↦
      let same_row : o ≡ p = ground (arith, w.row, ==_iff id j) in
      (
        o',
        ground (arith, find-write j id o' s.orders, w.row, w.written, ==_iff id j),
        subst (λ q. SameTerms q o') same_row w.terms,
      )
  | inr other ↦ (p, ground (arith, find-write j id o' s.orders, w.written), SameTerms-refl p)
]

Step-Stands :
    (role : Role) (s t : Store)
    → Step role s t
    → (j : ℕ) (p : Order) → find j s.orders ≡ some p
    → Stands j p t
Step-Stands role s t (kept a b) j p e = (p, ground arith, SameTerms-refl p)
Step-Stands role s t (opened id o n st ref a b) j p e =
    (p, ground (arith, find-insert j id o s.orders, ==_iff id j), SameTerms-refl p)
Step-Stands role s t (edited id o o' w st b) j p e = written-Stands role id o o' s t w j p e
Step-Stands role s t (advanced id o o' e' w r b) j p e = written-Stands role id o o' s t w j p e

-- No call by anybody deletes an order or changes what was agreed: the parties, the listing, the card,
-- its condition and quantity, the amount, the fee and the currency.
pub perform_all-Stands :
    (cs : List Call) (s : Store) (id : ℕ) (o : Order)
    → find id s.orders ≡ some o
    → Stands id o (perform_all cs s)
perform_all-Stands cs s id o e =
    perform_all_induction (Stands id o) keep cs s (o, e, SameTerms-refl o)
  where
    keep : (role : Role) (u v : Store) → Step role u v → Stands id o u → Stands id o v
    keep role u v st (p, found, terms) =
        let (q, found', terms') = Step-Stands role u v st id p found in
        (q, found', SameTerms-trans o p q terms terms')

abbrev pub session_statuses : List OrderStatus
session_statuses = created ∷ shipped ∷ cancelled ∷ disputed ∷ []

-- What a session of `user` has done to an order: nothing, or, as a party to it, something that leaves
-- the payment alone and ends in one of the four statuses that a session may write.
abbrev pub SessionWrote : ℕ → Order → Order → Type 0
SessionWrote user o p =
    (p ≡ o)
    ⊎ ((is_party user o ≡ true) × (one_of p.status session_statuses ≡ true) × Frozen (web user) o p)

written-Session :
    (user id : ℕ) (o o' : Order) (s t : Store)
    → Writes (web user) id o o' s t
    → (j : ℕ) (p : Order) → find j s.orders ≡ some p
    → (q : Order) × (find j t.orders ≡ some q) × SessionWrote user p q
unfolding sees may_write
written-Session user id o o' s t w j p e = elim (Bool-cases (id == j)) [
  | inl same ↦
      let same_row : o ≡ p = ground (arith, w.row, ==_iff id j) in
      (
        o',
        ground (arith, find-write j id o' s.orders, w.row, w.written, ==_iff id j),
        subst (λ q. SessionWrote user q o') same_row
            (inr (w.visible, ground (arith, w.allowed), w.frozen)),
      )
  | inr other ↦ (p, ground (arith, find-write j id o' s.orders, w.written), inl refl)
]

Step-Session :
    (user : ℕ) (s t : Store)
    → Step (web user) s t
    → (j : ℕ) (p : Order) → find j s.orders ≡ some p
    → (q : Order) × (find j t.orders ≡ some q) × SessionWrote user p q
Step-Session user s t (kept a b) j p e = (p, ground arith, inl refl)
Step-Session user s t (opened id o n st ref a b) j p e =
    (p, ground (arith, find-insert j id o s.orders, ==_iff id j), inl refl)
Step-Session user s t (edited id o o' w st b) j p e = written-Session user id o o' s t w j p e
Step-Session user s t (advanced id o o' e' w r b) j p e = written-Session user id o o' s t w j p e

-- A call by a user's session leaves every order in its place, and one that it does change is an order
-- whose buyer or seller the user is; it then has a status that a session may write (`created`,
-- `shipped`, `cancelled` or `disputed`), and the payment intent, the tax and the time of payment that
-- it had.
pub session_wrote :
    (c : Call) (user : ℕ) (s : Store) (id : ℕ) (o : Order)
    → role_of c ≡ web user
    → find id s.orders ≡ some o
    → (q : Order) × (find id (perform c s).orders ≡ some q) × SessionWrote user o q
session_wrote c user s id o r e =
    Step-Session user s (perform c s)
      (subst (λ role. Step role s (perform c s)) r (perform-Step c s)) id o e
