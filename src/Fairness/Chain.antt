-- ===== src/Fairness/Chain.antt =====
-- The log of pulls (packages/core/src/fairness.ts): each row carries the hash of the row before it and
-- its own. SHA-256 in hexadecimal is a parameter, and so is the text that `JSON.stringify` gives to an
-- object. A text that is only stored is a number; a hash is a list of characters.
use gundam_tcg_hub.Base.{
  ℕ, zero, suc, not, ltb, if◌then◌else◌, Option, none, some, List, [], ◌∷◌, ◌++◌,
}
use gundam_tcg_hub.Fairness.Verify.{same_numbers}

pub record ChainedPull : Type 0 where
  pub seq : ℕ
  pub card_variant_id : Option ℕ
  pub label : Option ℕ
  pub value_cents_at_pull : ℕ
  pub value_source : ℕ
  pub pulled_at : ℕ

-- A key by its place in the alphabet: cardVariantId, label, pulledAt, seq, valueCentsAtPull,
-- valueSource.
pub data JsonValue : Type 0 where
  null : JsonValue
  number text : ℕ → JsonValue

abbrev pub Entry : Type 0
Entry = ℕ × JsonValue

abbrev pub nullable : Option ℕ → JsonValue
nullable none = null
nullable (some t) = text t

-- The object as it is written, in the order of `verifyChain`.
abbrev pub entries : ChainedPull → List Entry
entries row =
    (3, number row.seq)
    ∷ (0, nullable row.card_variant_id)
    ∷ (1, nullable row.label)
    ∷ (4, number row.value_cents_at_pull)
    ∷ (5, text row.value_source)
    ∷ (2, text row.pulled_at)
    ∷ []

abbrev insert_entry : Entry → List Entry → List Entry
insert_entry e [] = e ∷ []
insert_entry e (f ∷ fs) = if ltb f.0 e.0 then f ∷ insert_entry e fs else e ∷ f ∷ fs

-- `Object.keys(row).sort()`
unfoldable pub sort_entries : List Entry → List Entry
sort_entries [] = []
sort_entries (e ∷ es) = insert_entry e (sort_entries es)

pub record LoggedPull : Type 0 where
  pub pull : ChainedPull
  pub prev_hash : List ℕ
  pub row_hash : List ℕ

abbrev zeros : ℕ → List ℕ
zeros zero = []
zeros (suc n) = 48 ∷ zeros n

abbrev pub genesis_hash : List ℕ
genesis_hash = zeros 64

pub data ChainResult : Type 0 where
  valid_chain : ChainResult
  broken_at_seq : ℕ → ChainResult

module _ (sha256_hex : List ℕ → List ℕ) (stringify : List Entry → List ℕ) where
  unfoldable pub canonicalise : ChainedPull → List ℕ
  unfolding sort_entries
  canonicalise row = stringify (sort_entries (entries row))

  unfoldable pub hash_pull : List ℕ → ChainedPull → List ℕ
  unfolding canonicalise
  hash_pull prev row = sha256_hex (prev ++ canonicalise row)

  -- The loop of `verifyChain`, with `expectedPrev`.
  unfoldable pub verify_from : List ℕ → List LoggedPull → ChainResult
  unfolding hash_pull
  verify_from expected [] = valid_chain
  verify_from expected (r ∷ rows) =
      let rest = verify_from r.row_hash rows in
      if not (same_numbers r.prev_hash expected)
      then broken_at_seq r.pull.seq
      else if not (same_numbers (hash_pull r.prev_hash r.pull) r.row_hash)
      then broken_at_seq r.pull.seq
      else rest

  unfoldable pub verify_chain : List LoggedPull → ChainResult
  unfolding verify_from
  verify_chain rows = verify_from genesis_hash rows
