-- ===== src/Fairness/Log.antt =====
-- Logging a pull (`logPull` of packages/db/src/queries/breaks.ts). The published price of a card and the
-- catalogue are parameters, and so is whether nothing but spaces is left of a label. The pulls of a break are kept in the order of their numbers, so the row
-- with the highest number is the last. The unique numbers and the transaction keep two pulls apart.
use gundam_tcg_hub.Base.{
  ℕ, ◌+◌, ◌<◌, ◌≤◌, ◌≡◌, refl, sym, subst, ◌∙◌, Bool, true, false, not, ◌||◌, ◌==◌, leb,
  if◌then◌else◌, Option, none, some, is_some, List, [], ◌∷◌, ◌++◌, length, length-append, arith,
}
use gundam_tcg_hub.Fairness.Chain.{
  ChainedPull, Entry, LoggedPull, valid_chain, genesis_hash, hash_pull, verify_from, verify_chain,
}
use gundam_tcg_hub.Fairness.Tamper.{head_of, valid_row, pass_row}
use gundam_tcg_hub.Fairness.Break.{
  Break, break_not_found, break_not_live, pull_limit, missing_card, unidentified, done, failed,
  is_live, Op,
}
use gundam_tcg_hub.Fairness.Actions.{after, after_induction}

abbrev pub max_pulls_per_break : ℕ
max_pulls_per_break = 2000

pub record LogPullInput : Type 0 where
  pub card_variant_id : Option ℕ
  pub label : Option ℕ
  pub value_cents_at_pull : Option ℕ

-- The texts `manual` and `index`.
abbrev pub manual : ℕ
manual = 0

abbrev pub index : ℕ
index = 1

abbrev pub last_row : List LoggedPull → Option LoggedPull
last_row [] = none
last_row (r ∷ rows) = elim (last_row rows) [ none ↦ some r | some l ↦ some l ]

-- `tip?.seq ?? 0` and `tip?.rowHash ?? GENESIS_HASH`
abbrev pub tip_seq : Option LoggedPull → ℕ
tip_seq none = 0
tip_seq (some r) = r.pull.seq

abbrev pub tip_hash : List ℕ → Option LoggedPull → List ℕ
tip_hash start none = start
tip_hash start (some r) = r.row_hash

module _ (sha256_hex : List ℕ → List ℕ) (stringify : List Entry → List ℕ)
    (latest_index_value : ℕ → Option ℕ) (card_exists : ℕ → Bool) (is_blank : ℕ → Bool) where
  -- What the pull is worth, and where that comes from.
  unfoldable pub value_of : LogPullInput → ℕ × ℕ
  value_of input = elim input.value_cents_at_pull [
    | some value ↦ (value, manual)
    | none ↦ elim input.card_variant_id [
      | none ↦ (0, manual)
      | some card ↦ elim (latest_index_value card) [
        | none ↦ (0, index)
        | some value ↦ (value, index)
      ]
    ]
  ]

  unfoldable pub linked : LogPullInput → Option LoggedPull → ℕ → LoggedPull
  unfolding value_of hash_pull
  linked input tip at =
      let pull : ChainedPull = record {
        seq = tip_seq tip + 1;
        card_variant_id = input.card_variant_id;
        label = input.label;
        value_cents_at_pull = (value_of input).0;
        value_source = (value_of input).1;
        pulled_at = at;
      } in
      record {
        pull = pull;
        prev_hash = tip_hash genesis_hash tip;
        row_hash = hash_pull sha256_hex stringify (tip_hash genesis_hash tip) pull;
      }

  abbrev card_known : Option ℕ → Bool
  card_known none = true
  card_known (some card) = card_exists card

  -- `break_pulls_identified`: a card, or a label that says something.
  abbrev identified : LogPullInput → Bool
  identified input =
      is_some input.card_variant_id
      || elim input.label [ none ↦ false | some label ↦ not (is_blank label) ]

  unfoldable pub log_pull : ℕ → LogPullInput → Op LoggedPull
  unfolding linked
  log_pull user input b =
      if not (b.creator_id == user)
      then failed break_not_found
      else if not (is_live b.status)
      then failed break_not_live
      else if leb max_pulls_per_break (length b.pulls)
      then failed pull_limit
      else if not (card_known input.card_variant_id)
      then failed missing_card
      else if not (identified input)
      then failed unidentified
      else let row = linked input (last_row b.pulls) b.clock in
        done row (record b { pulls = b.pulls ++ (row ∷ []) })

  unfoldable pub log_all : List (ℕ × LogPullInput) → Break → Break
  log_all [] b = b
  log_all (l ∷ logs) b = log_all logs (after b (log_pull l.0 l.1 b))

  head_of-last_row :
      (start : List ℕ) (rows : List LoggedPull)
      → head_of start rows ≡ tip_hash start (last_row rows)
  head_of-last_row start [] = refl
  head_of-last_row start (r ∷ rows) = ground (arith, head_of-last_row r.row_hash rows)

  append_row :
      (start : List ℕ) (rows : List LoggedPull) (r : LoggedPull)
      → verify_from sha256_hex stringify start rows ≡ valid_chain
      → r.prev_hash ≡ head_of start rows
      → hash_pull sha256_hex stringify r.prev_hash r.pull ≡ r.row_hash
      → verify_from sha256_hex stringify start (rows ++ (r ∷ [])) ≡ valid_chain
  unfolding verify_from
  append_row start [] r v p h = pass_row sha256_hex stringify start r [] p h ∙ refl
  append_row start (x ∷ rows) r v p h =
      let (before, hashed, rest) = valid_row sha256_hex stringify start x rows v in
      pass_row sha256_hex stringify start x (rows ++ (r ∷ [])) before hashed
      ∙ append_row x.row_hash rows r rest p h

  -- The log of a break can be checked, and is not longer than the limit.
  abbrev pub IsLogged : Break → Type 0
  IsLogged b =
      (verify_chain sha256_hex stringify b.pulls ≡ valid_chain)
      × (length b.pulls ≤ max_pulls_per_break)

  log_done :
      (user : ℕ) (input : LogPullInput) (b c : Break) (row : LoggedPull)
      → log_pull user input b ≡ done row c
      → (length b.pulls < max_pulls_per_break)
        × (c.pulls ≡ b.pulls ++ (linked input (last_row b.pulls) b.clock ∷ []))
  unfolding log_pull
  log_done user input b c row h = ground arith

  linked_prev :
      (input : LogPullInput) (b : Break)
      → (linked input (last_row b.pulls) b.clock).prev_hash ≡ head_of genesis_hash b.pulls
  unfolding linked
  linked_prev input b = sym (head_of-last_row genesis_hash b.pulls)

  linked_hash :
      (input : LogPullInput) (b : Break)
      → let r = linked input (last_row b.pulls) b.clock in
        hash_pull sha256_hex stringify r.prev_hash r.pull ≡ r.row_hash
  unfolding linked
  linked_hash input b = refl

  log_pull-IsLogged :
      (user : ℕ) (input : LogPullInput) (b : Break)
      → IsLogged b
      → IsLogged (after b (log_pull user input b))
  unfolding verify_chain
  log_pull-IsLogged user input b h = after_induction IsLogged b (log_pull user input b) h λ row c e.
      let (room, made) = log_done user input b c row e in
      let r = linked input (last_row b.pulls) b.clock in
      let checked =
        append_row genesis_hash b.pulls r h.0 (linked_prev input b) (linked_hash input b) in
      (
        subst (λ rows. verify_from sha256_hex stringify genesis_hash rows ≡ valid_chain) (sym made)
            checked,
        subst (λ rows. length rows ≤ 2000) (sym made)
            (omega (arith, length-append b.pulls (r ∷ []), room)),
      )

  -- However pulls are logged, by whomever and whether they are refused or not: a log that could be
  -- checked and was within the limit of 2000 pulls still is.
  pub log_all-IsLogged :
      (logs : List (ℕ × LogPullInput)) (b : Break) → IsLogged b → IsLogged (log_all logs b)
  unfolding log_all
  log_all-IsLogged [] b h = h
  log_all-IsLogged (l ∷ logs) b h =
      log_all-IsLogged logs (after b (log_pull l.0 l.1 b)) (log_pull-IsLogged l.0 l.1 b h)
