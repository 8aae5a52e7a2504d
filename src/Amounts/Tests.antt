-- ===== src/Amounts/Tests.antt =====
-- Runs of the readers of amounts, offsets and headers, and the theorems about them at concrete inputs.
use gundam_tcg_hub.Base.{◌≡◌, refl, leb, ltb, if◌then◌else◌, List, [], ◌∷◌, none, some}
use gundam_tcg_hub.Base.Int.{pos, negsuc}
use gundam_tcg_hub.Text.{Units, units, trim, trim_start, trim_end, before_end, same_text, is_space}
use gundam_tcg_hub.Text.Decimal.{number_from, split, without}
use gundam_tcg_hub.Amounts.Money.{without_currency, parse_money_to_cents, format_cents_as_amount}
use gundam_tcg_hub.Amounts.MoneyRoundTrip.{first_too_large, money_round_trip}
use gundam_tcg_hub.Amounts.Durations.{
  max_vod_offset_seconds, bounded, parse_units, unit_scan, unit_step, parse_duration_to_seconds,
  format_vod_offset, twitch_offset,
}
use gundam_tcg_hub.Amounts.TwitchRoundTrip.{offset_round_trip}
use gundam_tcg_hub.Amounts.Columns.{
  unknown_column, missing_column, column_of, is_known, name_problems, missing_problems,
  validate_collection_csv_header,
}

reads_thousands : parse_money_to_cents (units " $1,234.5") ≡ some 123450
unfolding parse_money_to_cents without_currency split without number_from trim trim_start trim_end
    before_end is_space
reads_thousands = refl

refuses_open_point : parse_money_to_cents (units "12.") ≡ none
unfolding parse_money_to_cents without_currency split without trim trim_start trim_end before_end
    is_space
refuses_open_point = refl

reads_units : parse_duration_to_seconds (units "1H02m3s") ≡ some 3723
unfolding parse_duration_to_seconds parse_units unit_scan unit_step bounded number_from trim
    trim_start trim_end before_end is_space
reads_units = refl

refuses_order : parse_duration_to_seconds (units "3s2m") ≡ none
unfolding parse_duration_to_seconds parse_units unit_scan unit_step number_from trim trim_start
    trim_end before_end is_space
refuses_order = refl

mistyped :
    validate_collection_csv_header (units "Set " ∷ units "number" ∷ units "qty" ∷ [])
    ≡ unknown_column (units "qty") ∷ missing_column (units "quantity") ∷ []
unfolding validate_collection_csv_header name_problems missing_problems column_of is_known same_text
    trim trim_start trim_end before_end is_space
mistyped = refl

money_round_trip_example :
    (parse_money_to_cents (format_cents_as_amount (pos 1205))
      ≡ (if ltb 1205 first_too_large then some 1205 else none))
    × (parse_money_to_cents (36 ∷ format_cents_as_amount (pos 1205))
        ≡ (if ltb 1205 first_too_large then some 1205 else none))
    × (parse_money_to_cents (format_cents_as_amount (negsuc 99)) ≡ none)
money_round_trip_example = money_round_trip 1205 36 99 refl

offset_round_trip_example :
    (parse_duration_to_seconds (format_vod_offset 3723)
      ≡ (if leb 3723 max_vod_offset_seconds then some 3723 else none))
    × (parse_duration_to_seconds (twitch_offset 3723)
        ≡ (if leb 3723 max_vod_offset_seconds then some 3723 else none))
offset_round_trip_example = offset_round_trip 3723

abbrev columns : List Units
columns = units "Set" ∷ units " number" ∷ units "QUANTITY" ∷ units "notes" ∷ []
