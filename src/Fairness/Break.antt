-- ===== src/Fairness/Break.antt =====
-- A break from its draft to the revealed seed (packages/db/src/queries/fairness.ts and breaks.ts). One
-- break is one value, and each operation is one transaction on it by a signed-in user; the row policies
-- let only the creator write. `revealBreak` reads the break, reads the secret and publishes in three
-- transactions, which are one step here: an ended break stays ended, and what it has committed and
-- its client seed are written once. The seed that `generateToken` draws is an argument. Hashing and
-- encryption are parameters; that each encryption draws a nonce of its own is left out, since only
-- what decryption gives back is used.
use gundam_tcg_hub.Base.{
  ℕ, Bool, true, false, not, ◌&&◌, ◌||◌, ◌==◌, ltb, leb, if◌then◌else◌, Option, none, some, is_some,
  List, [], ◌∷◌, length,
}
use gundam_tcg_hub.Fairness.Shuffle.{Signer, ShuffleInput, Shuffled, shuffled, derive_shuffle}
use gundam_tcg_hub.Fairness.Verify.{commitment_for}
use gundam_tcg_hub.Fairness.Chain.{LoggedPull}

pub data BreakStatus : Type 0 where
  draft live ended : BreakStatus

-- A row of `break_commitments`.
pub record Commitment : Type 0 where
  pub commitment : List ℕ
  pub server_seed_encrypted : List ℕ
  pub client_seed : Option (List ℕ)
  pub revealed_seed : Option (List ℕ)
  pub slot_count : ℕ
  pub committed_at : ℕ
  pub revealed_at : Option ℕ

pub record Break : Type 0 where
  pub id : ℕ
  pub creator_id : ℕ
  pub status : BreakStatus
  pub committed : Option Commitment
  pub pulls : List LoggedPull
  pub clock : ℕ

pub data BreakError : Type 0 where
  break_not_found cannot_go break_not_live pull_limit missing_card unidentified : BreakError
  commit_before_start bad_slot_count already_committed : BreakError
  bad_client_seed no_open_commitment : BreakError
  reveal_after_end not_committed client_seed_first cannot_decrypt : BreakError
  not_shuffled : Shuffled → BreakError

pub data Done (A : Type 0) : Type 0 where
  done : A → Break → Done A
  failed : BreakError → Done A

abbrev pub Op : Type 0 → Type 0
Op A = Break → Done A

abbrev pub is_draft : BreakStatus → Bool
is_draft draft = true
is_draft _ = false

abbrev pub is_live : BreakStatus → Bool
is_live live = true
is_live _ = false

abbrev pub is_ended : BreakStatus → Bool
is_ended ended = true
is_ended _ = false

-- `setBreakStatus`: to `live` for `true`, else to `ended`.
unfoldable pub set_break_status : ℕ → Bool → Op (Unit {0})
set_break_status user to_live b =
    if not (b.creator_id == user)
    then failed break_not_found
    else if to_live && is_draft b.status
    then done tt (record b { status = live })
    else if not to_live && is_live b.status
    then done tt (record b { status = ended })
    else failed cannot_go

-- `String.prototype.trim`: the white space and the line ends of JavaScript.
abbrev pub is_space : ℕ → Bool
is_space c =
    (leb 9 c && leb c 13)
    || (c == 32)
    || (c == 160)
    || (c == 5760)
    || (leb 8192 c && leb c 8202)
    || (c == 8232)
    || (c == 8233)
    || (c == 8239)
    || (c == 8287)
    || (c == 12288)
    || (c == 65279)

unfoldable pub trim_start : List ℕ → List ℕ
trim_start [] = []
trim_start (c ∷ cs) = if is_space c then trim_start cs else c ∷ cs

unfoldable pub trim_end : List ℕ → List ℕ
trim_end [] = []
trim_end (c ∷ cs) = elim (trim_end cs) [
  | [] ↦ if is_space c then [] else c ∷ []
  | d ∷ ds ↦ c ∷ d ∷ ds
]

unfoldable pub trim : List ℕ → List ℕ
unfolding trim_start trim_end
trim cs = trim_end (trim_start cs)

-- The UPDATE of `setClientSeed`.
abbrev pub open_seed : List ℕ → Break → Option Commitment → Done (Unit {0})
open_seed seed b none = failed no_open_commitment
open_seed seed b (some c) =
    if is_some c.client_seed
    then failed no_open_commitment
    else done tt (record b { committed = some (record c { client_seed = some seed }) })

unfoldable pub set_client_seed : ℕ → List ℕ → Op (Unit {0})
unfolding trim
set_client_seed user client_seed b =
    let trimmed = trim client_seed in
    if (length trimmed == 0) || ltb 200 (length trimmed)
    then failed bad_client_seed
    else if not (b.creator_id == user)
    then failed no_open_commitment
    else open_seed trimmed b b.committed

module _ (sha256_hex : List ℕ → List ℕ) (encrypt : List ℕ → List ℕ) where
  -- `commitBreak`, for the seed that was drawn. The CHECK on the number of slots comes before the
  -- conflict on the break.
  unfoldable pub commit_break : ℕ → List ℕ → ℕ → Op (Unit {0})
  unfolding commitment_for
  commit_break user server_seed slot_count b =
      if not (b.creator_id == user)
      then failed break_not_found
      else if not (is_draft b.status)
      then failed commit_before_start
      else if not (leb 2 slot_count && leb slot_count 1000)
      then failed bad_slot_count
      else if is_some b.committed
      then failed already_committed
      else done tt (record b {
        committed = some record {
          commitment = commitment_for sha256_hex server_seed;
          server_seed_encrypted = encrypt server_seed;
          client_seed = none;
          revealed_seed = none;
          slot_count = slot_count;
          committed_at = b.clock;
          revealed_at = none;
        };
      })

-- The UPDATE of `revealBreak`, which leaves a seed that was revealed before.
abbrev pub revealed : List ℕ → ℕ → Commitment → Commitment
revealed seed at c =
    if is_some c.revealed_seed
    then c
    else record c { revealed_seed = some seed; revealed_at = some at }

unfoldable pub publish : Break → Commitment → List ℕ → Shuffled → Done (List ℕ)
publish b c seed (shuffled order) =
    done order (record b { committed = some (revealed seed b.clock c) })
publish b c seed failure = failed (not_shuffled failure)

abbrev pub shuffle_input : Break → Commitment → List ℕ → List ℕ → ShuffleInput
shuffle_input b c server_seed client_seed = record {
  server_seed = server_seed;
  client_seed = client_seed;
  break_id = b.id;
  count = c.slot_count;
}

module _ (decrypt : List ℕ → Option (List ℕ)) (sign : Signer) where
  -- `secret.revealedSeed ?? decryptField(keyRing, secret.encrypted)`
  unfoldable pub server_seed_of : Commitment → Option (List ℕ)
  server_seed_of c = elim c.revealed_seed [
    | some seed ↦ some seed
    | none ↦ decrypt c.server_seed_encrypted
  ]

  unfoldable pub reveal_with : ℕ → Break → Commitment → List ℕ → Option (List ℕ) → Done (List ℕ)
  unfolding publish
  reveal_with fuel b c client_seed none = failed cannot_decrypt
  reveal_with fuel b c client_seed (some seed) =
      publish b c seed (derive_shuffle sign fuel (shuffle_input b c seed client_seed))

  unfoldable pub reveal_committed : ℕ → Break → Option Commitment → Done (List ℕ)
  unfolding reveal_with server_seed_of
  reveal_committed fuel b none = failed not_committed
  reveal_committed fuel b (some c) = elim c.client_seed [
    | none ↦ failed client_seed_first
    | some client_seed ↦ reveal_with fuel b c client_seed (server_seed_of c)
  ]

  -- `revealBreak`
  unfoldable pub reveal_break : ℕ → ℕ → Op (List ℕ)
  unfolding reveal_committed
  reveal_break fuel user b =
      if not (b.creator_id == user)
      then failed break_not_found
      else if not (is_ended b.status)
      then failed reveal_after_end
      else reveal_committed fuel b b.committed
