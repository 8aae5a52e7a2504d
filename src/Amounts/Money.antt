-- ===== src/Amounts/Money.antt =====
-- Amounts in a collection's file (`parseMoneyToCents` and `formatCentsAsAmount` in packages/core/src/collections.ts).
use gundam_tcg_hub.Base.{
  ℕ, suc, ◌+◌, ◌*◌, ◌/◌, ◌%◌, Bool, ◌||◌, ◌==◌, if◌then◌else◌, List, [], ◌∷◌, ◌++◌, Option, none,
  some,
}
use gundam_tcg_hub.Base.Int.{ℤ, pos, negsuc}
use gundam_tcg_hub.Text.{Units, trim}
use gundam_tcg_hub.Text.Decimal.{show, number, pad_start, pad_end, split, without, is_number}

-- `$`, `£`, `€` and `¥`.
abbrev pub is_currency : ℕ → Bool
is_currency c = (c == 36) || ((c == 163) || ((c == 8364) || (c == 165)))

unfoldable pub without_currency : Units → Units
without_currency [] = []
without_currency (c ∷ s) = if is_currency c then s else c ∷ s

-- The cents of the digits before the point and of those behind it.
abbrev pub cents_of : Units → Units → ℕ
cents_of whole fraction = number whole * 100 + number (pad_end fraction 2 b'0')

abbrev pub parse_parts : List Units → Option ℕ
parse_parts (whole ∷ []) = if is_number 9 whole then some (cents_of whole []) else none
parse_parts (whole ∷ fraction ∷ []) =
    if is_number 9 whole
    then if is_number 2 fraction then some (cents_of whole fraction) else none
    else none
parse_parts _ = none

unfoldable pub parse_money_to_cents : Units → Option ℕ
parse_money_to_cents input = parse_parts (split b'.' (without b',' (without_currency (trim input))))

abbrev pub amount : ℕ → Units
amount cents = show (cents / 100) ++ (b'.' ∷ pad_start (show (cents % 100)) 2 b'0')

unfoldable pub format_cents_as_amount : ℤ → Units
format_cents_as_amount (pos cents) = amount cents
format_cents_as_amount (negsuc n) = b'-' ∷ amount (suc n)
