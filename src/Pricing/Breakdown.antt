-- ===== src/Pricing/Breakdown.antt =====
-- The segments that `computePrice` of apps/server/src/modules/sessions/pricing.ts makes.
use mathlib.Core.Path.{subst}
use gaming_cafe_management.Prelude.{
  ℕ, zero, suc, ◌+◌, ◌*◌, ◌<◌, ◌≡◌, refl, inl, inr, Bool-cases, List, [], ◌∷◌, ◌++◌, Option, none,
  some, arith,
}
use gaming_cafe_management.Pricing.{
  PricingRuleInput, Winner, Run, Pass, PriceSegment, winner_at, segment_of, flush_run, flush,
  price_round, price_loop, first_pass, compute_price, same_rule,
}

-- The segments follow on one another from `a` to `b`, and each lasts the whole minutes that it names.
abbrev pub Tiles : ℕ → ℕ → List PriceSegment → Type 0
Tiles a b [] = a ≡ b
Tiles a b (s ∷ ss) =
    (s.from ≡ a) × (s.to ≡ s.from + s.minutes * 60000) × (0 < s.minutes) × Tiles s.to b ss

Tiles-append :
    (a b : ℕ) (ss : List PriceSegment) (s : PriceSegment)
    → Tiles a b ss
    → s.from ≡ b
    → s.to ≡ s.from + s.minutes * 60000
    → 0 < s.minutes
    → Tiles a s.to (ss ++ s ∷ [])
Tiles-append a b [] s h p q r = (omega arith, q, r, refl)
Tiles-append a b (x ∷ ss) s (h, k, l, rest) p q r = (h, k, l, Tiles-append x.to b ss s rest p q r)

-- The closed segments reach to the run under way, which reaches to the instant `t`.
abbrev Reaches : ℕ → ℕ → List PriceSegment → Option Run → Type 0
Reaches start t ss none = (ss ≡ []) × (start ≡ t)
Reaches start t ss (some run) =
    Tiles start run.from ss × (run.from + run.count * 60000 ≡ t) × (0 < run.count)

flush-Tiles :
    (start t n : ℕ) (ss : List PriceSegment) (r : Option Run)
    → Reaches start t ss r
    → Tiles start t (flush (record { breakdown = ss; rate_minutes = n; current = r })).breakdown
unfolding flush flush_run segment_of
flush-Tiles start t n ss none (e, h) = rw e h
flush-Tiles start t n ss (some run) (h, e, p) =
    rw (← e) (Tiles-append start run.from ss (segment_of run) h refl refl p)

round-Reaches :
    (start t n : ℕ) (w : Winner) (ss : List PriceSegment) (r : Option Run)
    → Reaches start t ss r
    → let s = price_round w t (record { breakdown = ss; rate_minutes = n; current = r }) in
      Reaches start (t + 60000) s.breakdown s.current
unfolding price_round
round-Reaches start t n w ss none h = (flush-Tiles start t n ss none h, omega arith, omega arith)
round-Reaches start t n w ss (some run) h = elim (Bool-cases (same_rule run.rule w)) [
  | inl same ↦ rw same (h.0, omega (arith, h.1), omega arith)
  | inr other ↦ rw other (flush-Tiles start t n ss (some run) h, omega arith, omega arith)
]

Reaches-to :
    (start t u : ℕ) (ss : List PriceSegment) (r : Option Run)
    → t ≡ u
    → Reaches start t ss r
    → Reaches start u ss r
Reaches-to start t u ss r e h = subst (λ k. Reaches start k ss r) e h

loop-Reaches :
    (rules : List PricingRuleInput) (tier_id : Option ℕ) (start left i : ℕ) (s : Pass)
    → Reaches start (start + i * 60000) s.breakdown s.current
    → let s' = price_loop rules tier_id start left i s in
      Reaches start (start + (i + left) * 60000) s'.breakdown s'.current
unfolding price_loop
loop-Reaches rules tier_id start zero i s h =
    Reaches-to start (start + i * 60000) _ s.breakdown s.current (omega arith) h
loop-Reaches rules tier_id start (suc left) i s h =
    let t = start + i * 60000 in
    let s' = price_round (winner_at rules tier_id t) t s in
    let last = price_loop rules tier_id start left (i + 1) s' in
    let h' =
      round-Reaches start t s.rate_minutes (winner_at rules tier_id t) s.breakdown s.current h in
    let next : Reaches start (start + (i + 1) * 60000) s'.breakdown s'.current =
      Reaches-to start (t + 60000) _ s'.breakdown s'.current (omega arith) h' in
    Reaches-to start (start + (i + 1 + left) * 60000) _ last.breakdown last.current (omega arith)
      (loop-Reaches rules tier_id start left (i + 1) s' next)

-- The breakdown covers the stay: its segments follow on one another without gap or overlap from the
-- start to the start plus the minutes, and each lasts the whole minutes that it names, one at least.
pub breakdown-Tiles :
    (rules : List PricingRuleInput) (start minutes : ℕ) (tier_id : Option ℕ)
    → Tiles start (start + minutes * 60000) (compute_price rules start minutes tier_id).breakdown
unfolding compute_price
breakdown-Tiles rules start minutes tier_id =
    let s = price_loop rules tier_id start minutes 0 first_pass in
    flush-Tiles start (start + minutes * 60000) s.rate_minutes s.breakdown s.current (
      Reaches-to start (start + (0 + minutes) * 60000) _ s.breakdown s.current (omega arith)
        (loop-Reaches rules tier_id start minutes 0 first_pass (refl, omega arith)))
