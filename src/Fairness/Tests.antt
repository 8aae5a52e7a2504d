-- ===== src/Fairness/Tests.antt =====
-- A small break, and the theorems about the shuffle and the log at concrete inputs.
use gundam_tcg_hub.Base.{
  ℕ, ◌+◌, ◌*◌, ◌/◌, ◌%◌, ◌<◌, ◌↔◌, get_or, get_elem?, ◌≤◌, ◌≡◌, ◌≢◌, ◌⊎◌, inl, refl, ap, arith,
  Option, none, some, true, false, List, [], ◌∷◌, length,
}
use gundam_tcg_hub.Fairness.Arrays.{up_from, swap}
use gundam_tcg_hub.Fairness.Shuffle.{
  Signer, ShuffleInput, shuffled, byte_stream, word, random_below, shuffle, derive_shuffle, limit,
  words,
}
use gundam_tcg_hub.Fairness.Permutation.{IsPermutation, IsLively, derive_shuffle-IsPermutation}
use gundam_tcg_hub.Fairness.Choices.{fisher_yates, IsDraw, Draws, shuffle_fair}
use gundam_tcg_hub.Fairness.Sampling.{AreBytes, SameBytes}
use gundam_tcg_hub.Fairness.Verify.{
  VerifyInput, Verdict, verdict, commitment_for, verify_shuffle, judged, derived_input,
  verify_shuffle_iff, commitment_binds, same_numbers,
}
use gundam_tcg_hub.Fairness.Verify
use gundam_tcg_hub.Fairness.Chain.{
  ChainedPull, Entry, null, number, text, LoggedPull, valid_chain, broken_at_seq, genesis_hash,
  hash_pull, canonicalise, sort_entries, verify_from, verify_chain,
}
use gundam_tcg_hub.Fairness.Tamper.{edited_row_found}
use gundam_tcg_hub.Fairness.Break.{
  Break, Commitment, BreakStatus, ended, reveal_break, reveal_committed, reveal_with, publish,
  server_seed_of, revealed,
}
use gundam_tcg_hub.Fairness.Actions.{Action, starts, ends, commits, seeds, reveals, act_all}
use gundam_tcg_hub.Fairness.Promise.{IsHonest, act_all-IsHonest}
use gundam_tcg_hub.Fairness.Published.{checks, reveal_verifies}
use gundam_tcg_hub.Fairness.Log.{LogPullInput, IsLogged, log_all, log_all-IsLogged}

-- A stand-in for HMAC: all its bytes are 1, so every word is 16843009.
abbrev ones : Signer
ones seed message i = 1

abbrev input : ShuffleInput
input = record { server_seed = 5 ∷ []; client_seed = 6 ∷ []; break_id = 9; count = 4 }

ones-IsLively : IsLively (byte_stream ones (5 ∷ []) (6 ∷ []) 9) 1
unfolding byte_stream word
ones-IsLively pos = (0, omega arith, omega arith)

derive_shuffle-IsPermutation_example :
    (order : List ℕ) × (derive_shuffle ones 1 input ≡ shuffled order) × IsPermutation 4 order
derive_shuffle-IsPermutation_example =
    derive_shuffle-IsPermutation ones 1 input (omega arith) (omega arith) refl refl ones-IsLively

-- 16843009 leaves 1 by 4, 1 by 3 and 1 by 2.
shuffles : derive_shuffle ones 1 input ≡ shuffled (0 ∷ 2 ∷ 3 ∷ 1 ∷ [])
unfolding derive_shuffle shuffle random_below word limit byte_stream swap
shuffles = refl

shuffle_fair_example :
    (place draw : ℕ → ℕ) × Draws (λ n. 1) 0 3 place draw
    × (fisher_yates 3 draw (up_from 0 4) ≡ 0 ∷ 2 ∷ 3 ∷ 1 ∷ [])
    × ((k r w : ℕ)
        → r ≤ k
        → ((w < limit (k + 1)) × (w % (k + 1) ≡ r))
          ↔ ((q : ℕ) × (q < words / (k + 1)) × (w ≡ q * (k + 1) + r)))
    × ((p q : ℕ)
        → AreBytes (λ n. 1)
        → (word (λ n. 1) p < words) × (word (λ n. 1) p ≡ word (λ n. 1) q → SameBytes (λ n. 1) p q))
    × ((other : ℕ → ℕ)
        → IsDraw 3 other
        → fisher_yates 3 other (up_from 0 4) ≡ 0 ∷ 2 ∷ 3 ∷ 1 ∷ []
        → (k : ℕ) → 1 ≤ k
        → k ≤ 3
        → draw k ≡ other k)
unfolding shuffle random_below word limit swap
shuffle_fair_example = shuffle_fair (λ n. 1) 1 0 3 (0 ∷ 2 ∷ 3 ∷ 1 ∷ []) refl

-- A stand-in for SHA-256 that keeps the text.
abbrev plain : List ℕ → List ℕ
plain xs = xs

abbrev published : VerifyInput
published = record {
  server_seed = 5 ∷ [];
  client_seed = 6 ∷ [];
  break_id = 9;
  commitment = 5 ∷ [];
  claimed_order = 0 ∷ 2 ∷ 3 ∷ 1 ∷ [];
}

abbrev all_true : Verdict
all_true = record { valid = true; commitment_matches = true; order_matches = true }

commitment_binds_example :
    (published.claimed_order ≡ published.claimed_order)
    ⊎ Verify.Collision plain ones published published
unfolding verify_shuffle judged derive_shuffle shuffle random_below word limit byte_stream swap
    commitment_for same_numbers
commitment_binds_example =
    commitment_binds plain ones 1 published published all_true all_true refl refl refl refl refl
      refl refl refl

abbrev pull : ℕ → ℕ → ChainedPull
pull seq value = record {
  seq = seq;
  card_variant_id = none;
  label = some 3;
  value_cents_at_pull = value;
  value_source = 0;
  pulled_at = 77;
}

-- Stand-ins: a text of one character for every object, and a digest that is the length.
abbrev one_character : List Entry → List ℕ
one_character es = 123 ∷ []

abbrev by_length : List ℕ → List ℕ
by_length xs = length xs ∷ []

-- Stand-ins that tell rows apart: the numbers of an object one after the other, and their sum.
abbrev numbers : List Entry → List ℕ
numbers [] = []
numbers ((k, null) ∷ es) = 0 ∷ numbers es
numbers ((k, number n) ∷ es) = n ∷ numbers es
numbers ((k, text n) ∷ es) = n ∷ numbers es

abbrev total : List ℕ → ℕ
total [] = 0
total (x ∷ xs) = x + total xs

abbrev by_sum : List ℕ → List ℕ
by_sum xs = total xs ∷ []

abbrev first : LoggedPull
first = record { pull = pull 1 500; prev_hash = genesis_hash; row_hash = 3653 ∷ [] }

abbrev second : LoggedPull
second = record { pull = pull 2 900; prev_hash = 3653 ∷ []; row_hash = 4635 ∷ [] }

log_valid : verify_chain by_sum numbers (first ∷ second ∷ []) ≡ valid_chain
unfolding verify_chain verify_from hash_pull canonicalise sort_entries same_numbers
log_valid = refl

-- The value of the second pull is raised by a cent.
edited_row_found_example :
    (verify_chain by_sum numbers (first ∷ record second { pull = pull 2 901 } ∷ [])
      ≡ broken_at_seq 2)
    × ((h : List ℕ)
        → h ≢ second.prev_hash
        → verify_chain by_sum numbers (first ∷ record second { prev_hash = h } ∷ [])
          ≡ broken_at_seq 2)
    × ((h : List ℕ)
        → h ≢ second.row_hash
        → verify_chain by_sum numbers (first ∷ record second { row_hash = h } ∷ [])
          ≡ broken_at_seq 2)
unfolding hash_pull canonicalise sort_entries
edited_row_found_example =
    edited_row_found by_sum numbers (first ∷ []) [] second (pull 2 901) log_valid
      (λ e. let v : 4636 ≡ 4635 = ap (λ h. get_or (get_elem? h 0) 0) e in ground (arith, v))

abbrev new_break : Break
new_break = record {
  id = 9;
  creator_id = 1;
  status = BreakStatus.draft;
  committed = none;
  pulls = [];
  clock = 50;
}

-- A stand-in for encryption that keeps the text.
abbrev reads : List ℕ → Option (List ℕ)
reads xs = some xs

abbrev evening : List Action
evening =
    commits 1 (5 ∷ []) 4
    ∷ starts 1
    ∷ seeds 1 (32 ∷ 6 ∷ [])
    ∷ seeds 1 (7 ∷ [])
    ∷ reveals 1
    ∷ ends 1
    ∷ reveals 1
    ∷ []

act_all-IsHonest_example :
    IsHonest plain plain reads ones 1 (act_all plain plain reads ones 1 evening new_break)
act_all-IsHonest_example =
    act_all-IsHonest plain plain reads ones 1 evening new_break (λ text. refl) tt

abbrev promised : Commitment
promised = record {
  commitment = 5 ∷ [];
  server_seed_encrypted = 5 ∷ [];
  client_seed = some (6 ∷ []);
  revealed_seed = none;
  slot_count = 4;
  committed_at = 50;
  revealed_at = none;
}

abbrev ended_break : Break
ended_break = record new_break { status = ended; committed = some promised }

abbrev revealed_break : Break
revealed_break = record ended_break { committed = some (revealed (5 ∷ []) 50 promised) }

reveal_verifies_example :
    (x : Commitment) × (client : List ℕ) × (seed : List ℕ) × (some (revealed (5 ∷ []) 50 promised)
      ≡ some x)
    × (x.client_seed ≡ some client)
    × (x.revealed_seed ≡ some seed)
    × ((v : Verdict) × (verify_shuffle plain ones 1
            (checks revealed_break x client seed (0 ∷ 2 ∷ 3 ∷ 1 ∷ []))
          ≡ verdict v)
        × (v.valid ≡ true))
unfolding reveal_break reveal_committed reveal_with publish server_seed_of derive_shuffle shuffle
    random_below word limit byte_stream swap commitment_for
reveal_verifies_example =
    reveal_verifies plain plain reads ones 1 1 ended_break revealed_break (0 ∷ 2 ∷ 3 ∷ 1 ∷ [])
      (λ text. refl) (5 ∷ [], refl, refl, inl refl) refl

abbrev live_break : Break
live_break = record new_break { status = BreakStatus.live }

abbrev hit : LogPullInput
hit = record { card_variant_id = none; label = some 3; value_cents_at_pull = some 500 }

log_all-IsLogged_example :
    IsLogged by_sum numbers
      (λ card. none)
      (λ card. true)
      (λ label. false)
      (log_all by_sum numbers
        (λ card. none)
        (λ card. true)
        (λ label. false)
        ((1, hit) ∷ (1, hit) ∷ [])
        live_break)
unfolding verify_chain verify_from
log_all-IsLogged_example =
    log_all-IsLogged by_sum numbers (λ card. none) (λ card. true) (λ label. false)
      ((1, hit) ∷ (1, hit) ∷ []) live_break (refl, omega arith)
