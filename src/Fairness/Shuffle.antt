-- ===== src/Fairness/Shuffle.antt =====
-- The shuffle (packages/core/src/fairness.ts). HMAC-SHA-256 is a parameter: `sign seed message i` is
-- byte `i` of the 32 bytes that the platform signs `message` with under `seed`. The generator's state is
-- the number of bytes that it has given.
use gundam_tcg_hub.Base.{
  ℕ, zero, suc, ◌+◌, ◌-◌, ◌*◌, ◌/◌, ◌%◌, Bool, ◌||◌, ◌==◌, ltb, if◌then◌else◌, Option, none, some,
  List, length,
}
use gundam_tcg_hub.Fairness.Arrays.{up_from, swap}

-- `${SHUFFLE_ALGORITHM}:${clientSeed}:${breakId}:${block}`; a seed is a list of characters.
pub record Message : Type 0 where
  pub client_seed : List ℕ
  pub break_id : ℕ
  pub block : ℕ

abbrev pub Signer : Type 0
Signer = List ℕ → Message → ℕ → ℕ

-- Byte `n` of the stream.
unfoldable pub byte_stream : Signer → List ℕ → List ℕ → ℕ → ℕ → ℕ
byte_stream sign server_seed client_seed break_id n =
    sign server_seed (record { client_seed = client_seed; break_id = break_id; block = n / 32 })
      (n % 32)

abbrev pub words : ℕ
words = 4294967296

-- The largest multiple of the bound that a 32-bit word can be below.
unfoldable pub limit : ℕ → ℕ
limit bound = (words / bound) * bound

module _ (bytes : ℕ → ℕ) where
  -- Four bytes from `pos`, `value = value * 256 + next`.
  unfoldable pub word : ℕ → ℕ
  word pos =
      ((((0 * 256 + bytes pos) * 256 + bytes (pos + 1)) * 256 + bytes (pos + 2)) * 256
        + bytes (pos + 3))

  -- The loop ends by chance, so it runs on fuel: the number of words that it may draw.
  unfoldable pub random_below : ℕ → ℕ → ℕ → Option (ℕ × ℕ)
  unfolding word limit
  random_below zero pos bound = none
  random_below (suc fuel) pos bound =
      let rest = random_below fuel (pos + 4) bound in
      if ltb (word pos) (limit bound) then some (word pos % bound, pos + 4) else rest

  -- The loop of the shuffle, from the index `i` down to 1.
  unfoldable pub shuffle : ℕ → ℕ → ℕ → List ℕ → Option (List ℕ)
  unfolding random_below
  shuffle fuel pos zero order = some order
  shuffle fuel pos (suc i) order = elim (random_below fuel pos (suc i + 1)) [
    | none ↦ none
    | some (j, after) ↦ shuffle fuel after i (swap (suc i) j order)
  ]

pub record ShuffleInput : Type 0 where
  pub server_seed : List ℕ
  pub client_seed : List ℕ
  pub break_id : ℕ
  pub count : ℕ

pub data Shuffled : Type 0 where
  bad_count seeds_required out_of_fuel : Shuffled
  shuffled : List ℕ → Shuffled

abbrev pub is_empty : List ℕ → Bool
is_empty seed = length seed == 0

unfoldable pub derive_shuffle : Signer → ℕ → ShuffleInput → Shuffled
unfolding shuffle byte_stream
derive_shuffle sign fuel input =
    if ltb input.count 1
    then bad_count
    else if is_empty input.server_seed || is_empty input.client_seed
    then seeds_required
    else elim (shuffle (byte_stream sign input.server_seed input.client_seed input.break_id) fuel 0
        (input.count - 1) (up_from 0 input.count)) [
          | none ↦ out_of_fuel
          | some order ↦ shuffled order
        ]
