-- ===== src/Images/Walk.antt =====
-- The `while` loops over the segments of a file (packages/security/src/images.ts), and that each ends.
use gundam_tcg_hub.Base.{
  ℕ, zero, suc, ◌-◌, ◌<◌, ◌≡◌, refl, Bool, true, false, arith, Bool-cases, inl, inr,
}

-- A round of a loop: the next offset, the value that the function returns, or a `RangeError` from a `DataView`.
pub data Round {ℓ} (A : Type ℓ) : Type ℓ where
  next : ℕ → Round A
  answer : A → Round A
  range_error : Round A

-- What a run of a loop gives. `out_of_fuel` is the model's own: no run below gives it.
pub data Run {ℓ} (A : Type ℓ) : Type ℓ where
  returned : A → Run A
  threw : Run A
  out_of_fuel : Run A

abbrev pub follow {ℓ} : {A : Type ℓ} → Round A → (ℕ → Run A) → Run A
follow (next offset) rest = rest offset
follow (answer a) rest = returned a
follow range_error rest = threw

-- `while (inside(offset)) { round }  return otherwise;`
unfoldable pub walk {ℓ} : {A : Type ℓ} → (ℕ → Bool) → (ℕ → Round A) → A → ℕ → ℕ → Run A
walk inside round otherwise zero offset = out_of_fuel
walk inside round otherwise (suc fuel) offset = elim (inside offset) [
  | true ↦ follow (round offset) (walk inside round otherwise fuel)
  | false ↦ returned otherwise
]

-- A round that answers or moves forward, and does not throw.
pub data GoesOn {ℓ} (A : Type ℓ) (offset : ℕ) : Round A → Type ℓ where
  forward : {o : ℕ} → offset < o → GoesOn A offset (next o)
  answers : {a : A} → GoesOn A offset (answer a)

continue {ℓ} :
    {A : Type ℓ} {offset size : ℕ} (rest : ℕ → Run A) (r : Round A)
    → (offset < size) × GoesOn A offset r
    → ((o : ℕ) → offset < size → offset < o → (a : A) × (rest o ≡ returned a))
    → (a : A) × (follow r rest ≡ returned a)
continue rest (next o) (inside, forward lt) f = f o inside lt
continue rest (answer a) (inside, answers) f = (a, refl)
continue rest range_error (inside, g) f = elim g [ ]

module _ {ℓ} {A : Type ℓ} (inside : ℕ → Bool) (round : ℕ → Round A) (otherwise : A) where
  pub walk-inside :
      (fuel offset : ℕ)
      → inside offset ≡ true
      → walk inside round otherwise (suc fuel) offset
        ≡ follow (round offset) (walk inside round otherwise fuel)
  unfolding walk
  walk-inside fuel offset h = rw (walk, h) refl

  pub walk-outside :
      (fuel offset : ℕ)
      → inside offset ≡ false
      → walk inside round otherwise (suc fuel) offset ≡ returned otherwise
  unfolding walk
  walk-outside fuel offset h = rw (walk, h) refl

  -- A loop whose rounds move forward inside the file ends with an answer, on fuel above what is left of the file.
  pub walk-returned :
      (size : ℕ)
      → ((offset : ℕ) → inside offset ≡ true → (offset < size) × GoesOn A offset (round offset))
      → (fuel offset : ℕ) → size - offset < fuel
      → (a : A) × (walk inside round otherwise fuel offset ≡ returned a)
  walk-returned size goes zero offset h = absurd (omega arith)
  walk-returned size goes (suc fuel) offset h = elim (Bool-cases (inside offset)) [
    | inl i ↦ rw (walk-inside fuel offset i) (
        continue (walk inside round otherwise fuel) (round offset) (goes offset i)
          λ o within lt. walk-returned size goes fuel o (omega arith))
    | inr o ↦ (otherwise, walk-outside fuel offset o)
  ]
