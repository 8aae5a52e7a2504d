-- ===== src/Base/Table.antt =====
-- A database table as an association list from primary keys to rows, with the statements that
-- the queries use: a look-up by key, an insert, and a write to a row that is there.
use Prim.Native.Nat.{ℕ}
use mathlib.Core.Path.{◌≡◌, refl}
use mathlib.Core.Bool.{Bool, true, false, ◌||◌}
use mathlib.Core.Logic.{inl, inr, ◌≢◌}
use mathlib.Core.Option.{Option, none, some}
use mathlib.Core.List.{List, [], ◌∷◌}
use native.Mathlib.Omega.{arith}
use gundam_tcg_hub.Base.Tests.{Bool-cases, ==_iff, ◌==◌, if◌then◌else◌, is_some, ==_refl}

abbrev pub Table {ℓ} : Type ℓ → Type ℓ
Table V = List (ℕ × V)

module _ {ℓ} {V : Type ℓ} where
  unfoldable pub find : ℕ → Table V → Option V
  find k [] = none
  find k ((j, v) ∷ t) = if j == k then some v else find k t

  -- A new row goes to the end.
  unfoldable pub insert : ℕ → V → Table V → Table V
  insert k v [] = (k, v) ∷ []
  insert k v (e ∷ t) = e ∷ insert k v t

  -- `UPDATE … WHERE id = k`: nothing happens where there is no such row.
  unfoldable pub write : ℕ → V → Table V → Table V
  write k v [] = []
  write k v ((j, w) ∷ t) = if j == k then (j, v) ∷ t else (j, w) ∷ write k v t

  -- Some row satisfies the test.
  unfoldable pub any_row : (ℕ → V → Bool) → Table V → Bool
  any_row p [] = false
  any_row p ((j, v) ∷ t) = p j v || any_row p t

  -- The first row that satisfies the test, with its key.
  unfoldable pub first_row : (ℕ → V → Bool) → Table V → Option (ℕ × V)
  first_row p [] = none
  first_row p ((j, v) ∷ t) = if p j v then some (j, v) else first_row p t

  -- The rows that satisfy the test, in the table's order.
  unfoldable pub select_rows : (ℕ → V → Bool) → Table V → Table V
  select_rows p [] = []
  select_rows p ((j, v) ∷ t) = let rest = select_rows p t in if p j v then (j, v) ∷ rest else rest

  pub find-write :
      (j k : ℕ) (v : V) (t : Table V)
      → find j (write k v t)
        ≡ (if k == j then (if is_some (find k t) then some v else none) else find j t)
  unfolding find write
  find-write j k v [] = ground arith
  find-write j k v ((i, w) ∷ t) = ground (arith, find-write j k v t)

  pub find-insert :
      (j k : ℕ) (v : V) (t : Table V)
      → find k t ≡ none
      → find j (insert k v t) ≡ (if k == j then some v else find j t)
  unfolding find insert
  find-insert j k v [] h = refl
  find-insert j k v ((i, w) ∷ t) h = ground (arith, find-insert j k v t)

  -- A test that no row passes fails at each row that is found.
  pub find-any_row :
      (p : ℕ → V → Bool) (k : ℕ) (v : V) (t : Table V)
      → any_row p t ≡ false
      → find k t ≡ some v
      → p k v ≡ false
  unfolding find any_row
  find-any_row p k v [] h e = ground arith
  find-any_row p k v ((j, w) ∷ t) h e = ground (arith, find-any_row p k v t)

  pub find-first_row :
      (p : ℕ → V → Bool) (k : ℕ) (v : V) (t : Table V) → first_row p t ≡ some (k, v) → p k v ≡ true
  unfolding first_row
  find-first_row p k v [] h = cc
  find-first_row p k v ((j, w) ∷ t) h = ground (arith, find-first_row p k v t)

  -- No key stands twice.
  abbrev pub Distinct : Table V → Type ℓ
  Distinct [] = Unit
  Distinct ((j, v) ∷ t) = (find j t ≡ none) × Distinct t

  pub insert-Distinct :
      (k : ℕ) (v : V) (t : Table V) → find k t ≡ none → Distinct t → Distinct (insert k v t)
  unfolding find insert
  insert-Distinct k v [] h d = (refl, tt)
  insert-Distinct k v ((j, w) ∷ t) h d =
      (ground (arith, find-insert j k v t), insert-Distinct k v t (ground arith) d.1)

  pub write-insert :
      (k : ℕ) (u v : V) (t : Table V) → find k t ≡ none → write k v (insert k u t) ≡ insert k v t
  unfolding find insert write
  write-insert k u v [] h = ground (arith, ==_refl k)
  write-insert k u v ((j, w) ∷ t) h = ground (arith, write-insert k u v t)

  pub write-Distinct : (k : ℕ) (v : V) (t : Table V) → Distinct t → Distinct (write k v t)
  unfolding find write
  write-Distinct k v [] d = tt
  write-Distinct k v ((j, w) ∷ t) d = ground (arith, find-write j k v t, write-Distinct k v t d.1)

  none_is_not_some :
      (j k : ℕ) (w : V) (t : Table V) → (j == k) ≡ true → find j t ≡ none → find k t ≢ some w
  none_is_not_some j k w t same d e = ground (arith, ==_iff j k)

  find_later :
      (j k : ℕ) (v w : V) (t : Table V)
      → find j t ≡ none
      → find k t ≡ some w
      → find k ((j, v) ∷ t) ≡ some w
  unfolding find
  find_later j k v w t d e = elim (Bool-cases (j == k)) [
    | inl same ↦ absurd (none_is_not_some j k w t same d e)
    | inr other ↦ rw other e
  ]

  -- A test that fails at each row that is found is passed by no row.
  pub any_row-false :
      (p : ℕ → V → Bool) (t : Table V)
      → Distinct t
      → ((k : ℕ) (v : V) → find k t ≡ some v → p k v ≡ false)
      → any_row p t ≡ false
  unfolding find any_row
  any_row-false p [] d h = refl
  any_row-false p ((j, v) ∷ t) d h =
      let first = h j v (rw (==_refl j)) in
      let rest = any_row-false p t d.1 (λ k w e. h k w (find_later j k v w t d.0 e)) in
      rw (first, rest)
