-- ===== src/Fairness/Tamper.antt =====
-- What a valid log proves (`verifyChain` of packages/core/src/fairness.ts).
use gundam_tcg_hub.Base.{
  ℕ, ◌≡◌, ◌≢◌, ◌⊎◌, refl, sym, ◌∙◌, subst, Bool, true, false, ◌&&◌, ◌==◌, Option, same_option, List,
  [], ◌∷◌, ◌++◌, length, arith, Bool-cases, inl, inr, ==_iff,
}
use gundam_tcg_hub.Fairness.Verify.{same_numbers, same_numbers→eq, same_numbers_refl}
use gundam_tcg_hub.Fairness.Chain.{
  ChainedPull, Entry, LoggedPull, valid_chain, broken_at_seq, genesis_hash, hash_pull, verify_from,
  verify_chain,
}

abbrev same_pull : ChainedPull → ChainedPull → Bool
same_pull a b =
    (a.seq == b.seq)
    && same_option a.card_variant_id b.card_variant_id
    && same_option a.label b.label
    && (a.value_cents_at_pull == b.value_cents_at_pull)
    && (a.value_source == b.value_source)
    && (a.pulled_at == b.pulled_at)

same_option→eq : (a b : Option ℕ) → same_option a b ≡ true → a ≡ b
same_option→eq a b h = ground arith

same_pull→eq : (a b : ChainedPull) → same_pull a b ≡ true → a ≡ b
same_pull→eq a b h = ground (
  arith,
  ==_iff a.seq b.seq,
  same_option→eq a.card_variant_id b.card_variant_id,
  same_option→eq a.label b.label,
  ==_iff a.value_cents_at_pull b.value_cents_at_pull,
  ==_iff a.value_source b.value_source,
  ==_iff a.pulled_at b.pulled_at,
)

same_pull_refl : (a : ChainedPull) → same_pull a a ≡ true
same_pull_refl a = ground arith

-- A test that holds of equals and fails of these two tells them apart.
differ :
    {A : Type 0} (same : A → A → Bool) {a b : A}
    → ((x : A) → same x x ≡ true)
    → a ≡ b
    → same a b ≡ false
    → ⊥
differ same {a = a} r e f =
    let t : same a a ≡ false = subst (λ y. same a y ≡ false) (sym e) f in ground (arith, r a)

-- The hash of the last row, or what the first row has to follow.
abbrev pub head_of : List ℕ → List LoggedPull → List ℕ
head_of expected [] = expected
head_of expected (r ∷ rows) = head_of r.row_hash rows

module _ (sha256_hex : List ℕ → List ℕ) (stringify : List Entry → List ℕ) where
  -- Two different rows, or one row after two different hashes, with one hash.
  pub data Collision : Type 0 where
    collision :
        (p q : List ℕ) (a b : ChainedPull)
        → (p ≢ q) ⊎ (a ≢ b)
        → hash_pull sha256_hex stringify p a ≡ hash_pull sha256_hex stringify q b
        → Collision

  -- One row of a valid log.
  pub valid_row :
      (expected : List ℕ) (r : LoggedPull) (rows : List LoggedPull)
      → verify_from sha256_hex stringify expected (r ∷ rows) ≡ valid_chain
      → (r.prev_hash ≡ expected)
        × (hash_pull sha256_hex stringify r.prev_hash r.pull ≡ r.row_hash)
        × (verify_from sha256_hex stringify r.row_hash rows ≡ valid_chain)
  unfolding verify_from hash_pull
  valid_row expected r rows h = elim (Bool-cases (same_numbers r.prev_hash expected)) [
    | inr e ↦ absurd (ground arith)
    | inl e ↦
        elim (Bool-cases
          (same_numbers (hash_pull sha256_hex stringify r.prev_hash r.pull) r.row_hash)) [
            | inr f ↦ absurd (ground arith)
            | inl f ↦ (
              same_numbers→eq r.prev_hash expected e,
              same_numbers→eq (hash_pull sha256_hex stringify r.prev_hash r.pull) r.row_hash f,
              ground arith,
            )
          ]
  ]

  -- The walk goes on after a row that follows what is expected and has the right hash.
  pub pass_row :
      (expected : List ℕ) (r : LoggedPull) (rows : List LoggedPull)
      → r.prev_hash ≡ expected
      → hash_pull sha256_hex stringify r.prev_hash r.pull ≡ r.row_hash
      → verify_from sha256_hex stringify expected (r ∷ rows)
        ≡ verify_from sha256_hex stringify r.row_hash rows
  unfolding verify_from
  pass_row expected r rows p h =
      let e : same_numbers r.prev_hash expected ≡ true =
        subst (λ x. same_numbers r.prev_hash x ≡ true) p (same_numbers_refl r.prev_hash) in
      let f : same_numbers (hash_pull sha256_hex stringify r.prev_hash r.pull) r.row_hash ≡ true =
        subst (λ x. same_numbers (hash_pull sha256_hex stringify r.prev_hash r.pull) x ≡ true) h
          (same_numbers_refl (hash_pull sha256_hex stringify r.prev_hash r.pull)) in
      ground arith

  same_or_collision :
      (p q : List ℕ) (a b : ChainedPull)
      → hash_pull sha256_hex stringify p a ≡ hash_pull sha256_hex stringify q b
      → ((p ≡ q) × (a ≡ b)) ⊎ Collision
  same_or_collision p q a b h = elim (Bool-cases (same_numbers p q)) [
    | inl e ↦ elim (Bool-cases (same_pull a b)) [
      | inl f ↦ inl (same_numbers→eq p q e, same_pull→eq a b f)
      | inr f ↦ inr (collision p q a b (inr λ x. differ same_pull same_pull_refl x f) h)
    ]
    | inr e ↦ inr (collision p q a b (inl λ x. differ same_numbers same_numbers_refl x e) h)
  ]

  tamper_from :
      (p q : List ℕ) (xs ys : List LoggedPull)
      → length xs ≡ length ys
      → verify_from sha256_hex stringify p xs ≡ valid_chain
      → verify_from sha256_hex stringify q ys ≡ valid_chain
      → head_of p xs ≡ head_of q ys
      → ((xs ≡ ys) × (p ≡ q)) ⊎ Collision
  tamper_from p q [] [] n h k e = inl (refl, e)
  tamper_from p q [] (y ∷ ys) n h k e = absurd (omega arith)
  tamper_from p q (x ∷ xs) [] n h k e = absurd (omega arith)
  tamper_from p q (x ∷ xs) (y ∷ ys) n h k e =
      let (xp, xh, xr) = valid_row p x xs h in
      let (yp, yh, yr) = valid_row q y ys k in
      elim (tamper_from x.row_hash y.row_hash xs ys (omega arith) xr yr e) [
        | inr c ↦ inr c
        | inl (same_rest, same_hash) ↦
            elim (same_or_collision x.prev_hash y.prev_hash x.pull y.pull
              (xh ∙ same_hash ∙ sym yh)) [
                | inr c ↦ inr c
                | inl (same_prev, same_pull) ↦ inl (cc, sym xp ∙ same_prev ∙ yp)
              ]
      ]

  -- Two valid logs with as many rows and the same last hash are the same log, unless they give two
  -- different inputs of the row hash that have one hash.
  pub verify_chain_unique :
      (xs ys : List LoggedPull)
      → length xs ≡ length ys
      → verify_chain sha256_hex stringify xs ≡ valid_chain
      → verify_chain sha256_hex stringify ys ≡ valid_chain
      → head_of genesis_hash xs ≡ head_of genesis_hash ys
      → (xs ≡ ys) ⊎ Collision
  unfolding verify_chain
  verify_chain_unique xs ys n h k e = elim (tamper_from genesis_hash genesis_hash xs ys n h k e) [
    | inl (same, _) ↦ inl same
    | inr c ↦ inr c
  ]

  -- The row does not follow what the other followed, or its hash is not the one it carries.
  abbrev Unlinked : LoggedPull → LoggedPull → Type 0
  Unlinked r r' =
      (r'.prev_hash ≢ r.prev_hash)
      ⊎ (hash_pull sha256_hex stringify r'.prev_hash r'.pull ≢ r'.row_hash)

  stop_edited :
      (p : List ℕ) (ys : List LoggedPull) (r r' : LoggedPull)
      → r.prev_hash ≡ p
      → Unlinked r r'
      → verify_from sha256_hex stringify p (r' ∷ ys) ≡ broken_at_seq r'.pull.seq
  unfolding verify_from
  stop_edited p ys r r' before (inl moved) = elim (Bool-cases (same_numbers r'.prev_hash p)) [
    | inl e ↦ absurd (moved (same_numbers→eq r'.prev_hash p e ∙ sym before))
    | inr e ↦ ground arith
  ]
  stop_edited p ys r r' before (inr other) =
      elim (Bool-cases
        (same_numbers (hash_pull sha256_hex stringify r'.prev_hash r'.pull) r'.row_hash)) [
          | inl e ↦ absurd (
              other (
                same_numbers→eq (hash_pull sha256_hex stringify r'.prev_hash r'.pull) r'.row_hash
                  e))
          | inr e ↦ ground arith
        ]

  edited_from :
      (p : List ℕ) (xs ys : List LoggedPull) (r r' : LoggedPull)
      → verify_from sha256_hex stringify p (xs ++ r ∷ ys) ≡ valid_chain
      → Unlinked r r'
      → verify_from sha256_hex stringify p (xs ++ r' ∷ ys) ≡ broken_at_seq r'.pull.seq
  edited_from p [] ys r r' h u =
      let (before, hashed, _) = valid_row p r ys h in stop_edited p ys r r' before u
  edited_from p (x ∷ xs) ys r r' h u =
      let (before, hashed, rest) = valid_row p x (xs ++ r ∷ ys) h in
      pass_row p x (xs ++ r' ∷ ys) before hashed ∙ edited_from x.row_hash xs ys r r' rest u

  own_hash :
      (p : List ℕ) (xs ys : List LoggedPull) (r : LoggedPull)
      → verify_from sha256_hex stringify p (xs ++ r ∷ ys) ≡ valid_chain
      → hash_pull sha256_hex stringify r.prev_hash r.pull ≡ r.row_hash
  own_hash p [] ys r h = let (_, hashed, _) = valid_row p r ys h in hashed
  own_hash p (x ∷ xs) ys r h =
      let (_, _, rest) = valid_row p x (xs ++ r ∷ ys) h in own_hash x.row_hash xs ys r rest

  -- Change what one row of a valid log says and nothing else, so that the row's hash is not what it was:
  -- the check of the log then names that very row, by the number it now carries, wherever it stands.
  -- And it names the row whose hash of the row before, or whose own hash, alone is changed at all.
  pub edited_row_found :
      (xs ys : List LoggedPull) (r : LoggedPull) (pull : ChainedPull)
      → verify_chain sha256_hex stringify (xs ++ r ∷ ys) ≡ valid_chain
      → hash_pull sha256_hex stringify r.prev_hash pull
        ≢ hash_pull sha256_hex stringify r.prev_hash r.pull
      → (verify_chain sha256_hex stringify (xs ++ record r { pull = pull } ∷ ys)
          ≡ broken_at_seq pull.seq)
        × ((h : List ℕ)
            → h ≢ r.prev_hash
            → verify_chain sha256_hex stringify (xs ++ record r { prev_hash = h } ∷ ys)
              ≡ broken_at_seq r.pull.seq)
        × ((h : List ℕ)
            → h ≢ r.row_hash
            → verify_chain sha256_hex stringify (xs ++ record r { row_hash = h } ∷ ys)
              ≡ broken_at_seq r.pull.seq)
  unfolding verify_chain
  edited_row_found xs ys r pull valid different =
      let own = own_hash genesis_hash xs ys r valid in
      let found = λ (r' : LoggedPull). edited_from genesis_hash xs ys r r' valid in
      (
        found (record r { pull = pull }) (inr λ e. different (e ∙ sym own)),
        λ h moved. found (record r { prev_hash = h }) (inl moved),
        λ h other. found (record r { row_hash = h }) (inr λ e. other (sym e ∙ own)),
      )
