-- ===== src/Tests/Prices.antt =====
-- Prices of short stays.
use gaming_cafe_management.Prelude.{ℕ, ◌+◌, ◌*◌, ◌≡◌, ◌↔◌, refl, true, [], ◌∷◌, none, arith}
use gaming_cafe_management.Pricing.{
  compute_price, pick_winner, round_hours, rule_matches_minute, winner_at, in_window, rule_window,
  is_eligible,
}
use gaming_cafe_management.Pricing.Clock.{parse_clock}
use gaming_cafe_management.Pricing.Winner.{Covers, Stands, pick_winner-greatest}
use gaming_cafe_management.Pricing.Charges.{
  expand, minute_charges, sum_rates, expand-compute_price, amount-compute_price,
}
use gaming_cafe_management.Pricing.Breakdown.{Tiles, breakdown-Tiles}
use gaming_cafe_management.Pricing.Windows.{IsWithin, rule_matches_minute_iff, last_minute-free}
use gaming_cafe_management.Tests.Fixtures.{all_day, night, rules}

-- 21:58 on 1 January 1970.
abbrev evening : ℕ
evening = 79080000

amount-compute_price_example :
    (compute_price rules evening 5 none).amount
    ≡ round_hours (sum_rates (minute_charges rules none evening 5 0))
amount-compute_price_example = amount-compute_price rules evening 5 none

expand-compute_price_example :
    expand (compute_price rules evening 5 none).breakdown ≡ minute_charges rules none evening 5 0
expand-compute_price_example = expand-compute_price rules evening 5 none

breakdown-Tiles_example :
    Tiles evening (evening + 5 * 60000) (compute_price rules evening 5 none).breakdown
breakdown-Tiles_example = breakdown-Tiles rules evening 5 none

pick_winner-greatest_example :
    Stands none 4 1320 rules (pick_winner rules none 4 1320)
    × Covers (pick_winner rules none 4 1320) night
unfolding is_eligible rule_matches_minute rule_window in_window parse_clock
pick_winner-greatest_example = pick_winner-greatest none 4 1320 rules 1 night refl refl

rule_matches_minute_iff_example : (rule_matches_minute night 1330 ≡ true) ↔ IsWithin 1320 360 1330
unfolding parse_clock
rule_matches_minute_iff_example =
    rule_matches_minute_iff night 1320 360 1330 refl refl (omega arith) (omega arith) (omega arith)

last_minute-free_example :
    (winner_at (all_day ∷ []) none 86340000 ≡ none)
    × ((compute_price (all_day ∷ []) 86340000 1 none).amount ≡ 0)
unfolding parse_clock
last_minute-free_example =
    last_minute-free (all_day ∷ []) none 86340000 ((0, refl, omega arith, refl), tt) refl
