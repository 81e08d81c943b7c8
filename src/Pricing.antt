-- ===== src/Pricing.antt =====
-- apps/server/src/modules/sessions/pricing.ts. Instants are milliseconds since the epoch; texts that
-- `toISOString` makes of instants are the instants themselves. A rule object is known by its place
-- in the list of rules, which is what `===` on rules compares.
pub mod Clock
pub mod Winner
pub mod Charges
pub mod Breakdown
pub mod Windows
use gaming_cafe_management.Prelude.{
  ℕ, zero, suc, ◌+◌, ◌-◌, ◌*◌, ◌/◌, ◌%◌, Bool, true, false, not, ◌&&◌, ◌||◌, List, [], ◌∷◌, ◌++◌,
  Option, none, some, String, leb, ltb, ◌==◌, if◌then◌else◌, mem,
}
use Clock.{parse_clock}

pub record PricingRuleInput : Type 0 where
  pub id : Option ℕ
  pub name : Option String
  pub tier_id : Option ℕ
  pub day_of_week : List ℕ
  pub start_time : String
  pub end_time : String
  pub hourly_rate : ℕ
  pub priority : ℕ
  pub active : Bool

-- The text that names a rule in a breakdown: its name, or else its id.
pub data Label : Type 0 where
  by_name : String → Label
  by_id : ℕ → Label

pub record PriceSegment : Type 0 where
  pub from : ℕ
  pub to : ℕ
  pub rule : Option Label
  pub hourly_rate : ℕ
  pub minutes : ℕ

pub record PriceResult : Type 0 where
  pub amount : ℕ
  pub breakdown : List PriceSegment

-- Comparisons with NaN are false.
abbrev pub num_le : Option ℕ → Option ℕ → Bool
num_le (some a) (some b) = leb a b
num_le _ _ = false

abbrev pub num_lt : Option ℕ → Option ℕ → Bool
num_lt (some a) (some b) = ltb a b
num_lt _ _ = false

abbrev num_add : Option ℕ → ℕ → Option ℕ
num_add none n = none
num_add (some a) n = some (a + n)

abbrev num_sub : Option ℕ → ℕ → Option ℕ
num_sub none n = none
num_sub (some a) n = some (a - n)

-- The start and the end of the window; an end that is not after the start is on the next day.
unfoldable pub rule_window : PricingRuleInput → Option ℕ × Option ℕ
unfolding parse_clock
rule_window rule =
    let start_min = parse_clock rule.start_time in
    let end_min = parse_clock rule.end_time in
    (start_min, if num_le end_min start_min then num_add end_min 1440 else end_min)

-- The test of a window against a minute of the day.
unfoldable pub in_window : Option ℕ → Option ℕ → ℕ → Bool
in_window start_min end_min minute_of_day =
    if num_lt (some 1440) end_min
    then num_le start_min (some minute_of_day) || num_lt (some minute_of_day) (num_sub end_min 1440)
    else num_le start_min (some minute_of_day) && num_lt (some minute_of_day) end_min

unfoldable pub rule_matches_minute : PricingRuleInput → ℕ → Bool
unfolding rule_window in_window
rule_matches_minute rule minute_of_day =
    let (start_min, end_min) = rule_window rule in in_window start_min end_min minute_of_day

-- `rule.tier_id !== null && rule.tier_id !== tierId`.
abbrev other_tier : Option ℕ → Option ℕ → Bool
other_tier none tier_id = false
other_tier (some t) none = true
other_tier (some t) (some u) = not (t == u)

-- The four `continue` tests of `pickWinner`.
unfoldable pub is_eligible : Option ℕ → ℕ → ℕ → PricingRuleInput → Bool
is_eligible tier_id day_of_week minute_of_day rule =
    rule.active
    && not (other_tier rule.tier_id tier_id)
    && mem day_of_week rule.day_of_week
    && rule_matches_minute rule minute_of_day

-- A winner: the place of a rule and the rule.
abbrev pub Winner : Type 0
Winner = Option (ℕ × PricingRuleInput)

pub beats : PricingRuleInput → Winner → Bool
beats rule none = true
beats rule (some (_, w)) =
    ltb w.priority rule.priority
    || (rule.priority == w.priority && ltb w.hourly_rate rule.hourly_rate)

-- The loop of `pickWinner`, from the rule at place `i`.
pub pick_from : Option ℕ → ℕ → ℕ → ℕ → Winner → List PricingRuleInput → Winner
pick_from tier_id day minute i winner [] = winner
pick_from tier_id day minute i winner (rule ∷ rules) =
    pick_from tier_id day minute (suc i)
      (if is_eligible tier_id day minute rule && beats rule winner then some (i, rule) else winner)
      rules

pub pick_winner : List PricingRuleInput → Option ℕ → ℕ → ℕ → Winner
pick_winner rules tier_id day minute = pick_from tier_id day minute 0 none rules

pub rule_label : Winner → Option Label
rule_label none = none
rule_label (some (_, rule)) = elim rule.name [
  | some name ↦ some (by_name name)
  | none ↦ elim rule.id [ some id ↦ some (by_id id) | none ↦ none ]
]

abbrev pub winner_rate : Winner → ℕ
winner_rate none = 0
winner_rate (some (_, rule)) = rule.hourly_rate

-- `current.rule === winner`.
abbrev pub same_rule : Winner → Winner → Bool
same_rule none none = true
same_rule (some (i, _)) (some (j, _)) = i == j
same_rule _ _ = false

-- `t.getUTCDay()` and `t.getUTCHours() * 60 + t.getUTCMinutes()` (1 January 1970 was a Thursday).
abbrev pub utc_day : ℕ → ℕ
utc_day t = (t / 86400000 + 4) % 7

abbrev pub utc_minute : ℕ → ℕ
utc_minute t = t / 60000 % 1440

-- The winner for the minute that begins at an instant.
pub winner_at : List PricingRuleInput → Option ℕ → ℕ → Winner
winner_at rules tier_id t = pick_winner rules tier_id (utc_day t) (utc_minute t)

-- The variable `current`, and the variables of `computePrice`.
pub record Run : Type 0 where
  pub rule : Winner
  pub count : ℕ
  pub from : ℕ

pub record Pass : Type 0 where
  pub breakdown : List PriceSegment
  pub rate_minutes : ℕ
  pub current : Option Run

pub segment_of : Run → PriceSegment
segment_of run = record {
  from = run.from;
  to = run.from + run.count * 60000;
  rule = rule_label run.rule;
  hourly_rate = winner_rate run.rule;
  minutes = run.count;
}

flush_run : Option Run → Pass → Pass
unfolding segment_of
flush_run none s = s
flush_run (some run) s = record s {
  breakdown = s.breakdown ++ segment_of run ∷ [];
  rate_minutes = s.rate_minutes + winner_rate run.rule * run.count;
}

pub flush : Pass → Pass
unfolding flush_run
flush s = flush_run s.current s

-- Whether the run under way goes on with this winner.
abbrev pub continues : Option Run → Winner → Bool
continues none w = false
continues (some run) w = same_rule run.rule w

abbrev grow : Option Run → Option Run
grow none = none
grow (some run) = some (record run { count = run.count + 1 })

-- One round of the loop, at the instant `t` with the winner `w`.
pub price_round : Winner → ℕ → Pass → Pass
unfolding flush
price_round w t s =
    if continues s.current w
    then record s { current = grow s.current }
    else record (flush s) { current = some (record { rule = w; count = 1; from = t }) }

-- The rounds `i`, `i + 1`, … for as many as are left.
pub price_loop : List PricingRuleInput → Option ℕ → ℕ → ℕ → ℕ → Pass → Pass
price_loop rules tier_id start_at zero i s = s
price_loop rules tier_id start_at (suc left) i s =
    let t = start_at + i * 60000 in
    price_loop rules tier_id start_at left (i + 1) (price_round (winner_at rules tier_id t) t s)

abbrev pub first_pass : Pass
first_pass = record { breakdown = []; rate_minutes = 0; current = none }

-- `Math.round(n / 60)` for a natural number `n`.
abbrev pub round_hours : ℕ → ℕ
round_hours n = (n + 30) / 60

pub compute_price : List PricingRuleInput → ℕ → ℕ → Option ℕ → PriceResult
compute_price rules start_at minutes tier_id =
    let done = flush (price_loop rules tier_id start_at minutes 0 first_pass) in
    record { amount = round_hours done.rate_minutes; breakdown = done.breakdown }
