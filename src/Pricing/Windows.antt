-- ===== src/Pricing/Windows.antt =====
-- The time windows of pricing rules, in apps/server/src/modules/sessions/pricing.ts.
use mathlib.Core.Path.{subst}
use gaming_cafe_management.Prelude.{
  ap, ◌∙◌, ℕ, zero, suc, ◌+◌, ◌*◌, ◌≤◌, ◌<◌, ◌≡◌, refl, ◌↔◌, ◌⊎◌, true, List, [], ◌∷◌, Option, none,
  some, arith, All, leb, if◌then◌else◌,
}
use gaming_cafe_management.Pricing.Clock.{parse_clock}
use gaming_cafe_management.Pricing.{
  PricingRuleInput, Winner, rule_window, in_window, rule_matches_minute, is_eligible, winner_at,
  winner_rate, utc_day, utc_minute, compute_price,
}
use gaming_cafe_management.Pricing.Winner.{Stands, pick_winner-best}
use gaming_cafe_management.Pricing.Charges.{amount-compute_price}

-- A window of the 24-hour clock: from the start up to the end, past midnight where the end does not
-- come after the start.
abbrev pub IsWithin : ℕ → ℕ → ℕ → Type 0
IsWithin s e m = ((s < e) × (s ≤ m) × (m < e)) ⊎ ((e ≤ s) × ((s ≤ m) ⊎ (m < e)))

window_iff :
    (s e m : ℕ)
    → s < 1440
    → e ≤ 1440
    → m < 1440
    → (in_window (some s) (if leb e s then some (e + 1440) else some e) m ≡ true) ↔ IsWithin s e m
unfolding in_window
window_iff s e m hs he hm = (λ h. ground arith, λ h. ground arith)

-- A rule whose two clock texts read as minutes of the day matches a minute of the day exactly when
-- that minute lies in its window of the 24-hour clock; equal ends are the whole day.
pub rule_matches_minute_iff :
    (rule : PricingRuleInput) (s e m : ℕ)
    → parse_clock rule.start_time ≡ some s
    → parse_clock rule.end_time ≡ some e
    → s < 1440
    → e ≤ 1440
    → m < 1440
    → (rule_matches_minute rule m ≡ true) ↔ IsWithin s e m
unfolding rule_matches_minute rule_window
rule_matches_minute_iff rule s e m ps pe hs he hm = rw (ps, pe) (window_iff s e m hs he hm)

-- The rule's window ends at 23:59 and begins before.
abbrev pub EndsBeforeMidnight : PricingRuleInput → Type 0
EndsBeforeMidnight rule =
    (s : ℕ) × (parse_clock rule.start_time ≡ some s)
    × (s < 1439)
    × (parse_clock rule.end_time ≡ some 1439)

not-eligible_last_minute :
    (tier_id : Option ℕ) (day : ℕ) (rule : PricingRuleInput)
    → EndsBeforeMidnight rule
    → is_eligible tier_id day 1439 rule ≡ true
    → ⊥
unfolding is_eligible
not-eligible_last_minute tier_id day rule (s, ps, lt, pe) h =
    let matches : rule_matches_minute rule 1439 ≡ true = ground arith in
    let within : IsWithin s 1439 1439 =
      (rule_matches_minute_iff rule s 1439 1439 ps pe (omega arith) (omega arith) (omega arith)).0
        matches in
    omega arith

no_winner :
    (rules : List PricingRuleInput) (tier_id : Option ℕ) (day : ℕ) (w : Winner)
    → All EndsBeforeMidnight rules
    → Stands tier_id day 1439 rules w
    → w ≡ none
no_winner rules tier_id day none h p = refl
no_winner [] tier_id day (some (i, r)) h p = cc
no_winner (q ∷ rules) tier_id day (some (zero, r)) h p =
    let e : q ≡ r = cc in absurd (not-eligible_last_minute tier_id day r (rw (← e) h.0) p.1)
no_winner (q ∷ rules) tier_id day (some (suc i, r)) h p =
    let e : ◌≡◌ {A = Winner} (some (i, r)) none = no_winner rules tier_id day (some (i, r)) h.1 p in
    cc

-- Where every rule's window begins before 23:59 and ends at 23:59 of the clock, as the windows of the
-- seeded all-day rules do, the minute from 23:59 to midnight has no winner, and a stay of that minute
-- costs nothing.
pub last_minute-free :
    (rules : List PricingRuleInput) (tier_id : Option ℕ) (t : ℕ)
    → All EndsBeforeMidnight rules
    → utc_minute t ≡ 1439
    → (winner_at rules tier_id t ≡ none) × ((compute_price rules t 1 tier_id).amount ≡ 0)
unfolding winner_at
last_minute-free rules tier_id t h e = (
  none_at t e,
  omega (
    arith,
    amount-compute_price rules t 1 tier_id,
    ap winner_rate (none_at (t + 0 * 60000) (ap (λ (u : ℕ). utc_minute u) now ∙ e)),
  ),
)
  where
    now : t + 0 * 60000 ≡ t
    now = omega arith

    none_at : (u : ℕ) → utc_minute u ≡ 1439 → winner_at rules tier_id u ≡ none
    none_at u e' = no_winner rules tier_id (utc_day u) _ h (
        subst (λ (m : ℕ). Stands tier_id (utc_day u) m rules (winner_at rules tier_id u)) e'
          (pick_winner-best tier_id (utc_day u) (utc_minute u) rules).0)
