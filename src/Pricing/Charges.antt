-- ===== src/Pricing/Charges.antt =====
-- `computePrice` of apps/server/src/modules/sessions/pricing.ts against a description minute by
-- minute: what a minute costs, and how the minutes add up.
use gaming_cafe_management.Prelude.{
  ℕ, zero, suc, ◌+◌, ◌*◌, ◌≡◌, refl, ap, ◌∙◌, sym, inl, inr, Bool-cases, List, [], ◌∷◌, ◌++◌,
  Option, none, some, arith, replicate, replicate-suc,
}
use native.Mathlib.Numerals.{add-one}
use mathlib.Core.List.{append_assoc, append-nil}
use gaming_cafe_management.Pricing.{
  PricingRuleInput, Winner, Label, Run, Pass, PriceSegment, rule_label, winner_rate, winner_at,
  segment_of, flush_run, flush, price_round, price_loop, first_pass, compute_price, round_hours,
  same_rule,
}
use gaming_cafe_management.Pricing.Winner.{IsPlaced, winner_at-IsPlaced, same_rule-eq}

-- What one minute is charged by, and at which hourly rate.
abbrev pub Charge : Type 0
Charge = Option Label × ℕ

abbrev pub charge : Winner → Charge
charge w = (rule_label w, winner_rate w)

-- The charges of the minutes `i`, `i + 1`, … after the start.
abbrev pub minute_charges : List PricingRuleInput → Option ℕ → ℕ → ℕ → ℕ → List Charge
minute_charges rules tier_id start zero i = []
minute_charges rules tier_id start (suc left) i =
    charge (winner_at rules tier_id (start + i * 60000))
    ∷ minute_charges rules tier_id start left (i + 1)

-- A breakdown, written out minute by minute.
abbrev pub expand : List PriceSegment → List Charge
expand [] = []
expand (s ∷ ss) = replicate s.minutes (s.rule, s.hourly_rate) ++ expand ss

abbrev pub sum_rates : List Charge → ℕ
sum_rates [] = 0
sum_rates (c ∷ cs) = c.1 + sum_rates cs

sum_rates-append : (xs ys : List Charge) → sum_rates (xs ++ ys) ≡ sum_rates xs + sum_rates ys
sum_rates-append [] ys = omega arith
sum_rates-append (x ∷ xs) ys = omega (arith, sum_rates-append xs ys)

expand-append : (xs ys : List PriceSegment) → expand (xs ++ ys) ≡ expand xs ++ expand ys
expand-append [] ys = refl
expand-append (x ∷ xs) ys =
    rw
      (expand-append xs ys, append_assoc {A = Charge} (replicate x.minutes (x.rule, x.hourly_rate)))

sum_rates-replicate : (n : ℕ) (c : Charge) → sum_rates (replicate n c) ≡ c.1 * n
sum_rates-replicate zero c = omega arith
sum_rates-replicate (suc n) c = omega (arith, sum_rates-replicate n c)

-- The charges that a pass has closed, and those of the run under way.
abbrev open_charges : Option Run → List Charge
open_charges none = []
open_charges (some run) = replicate run.count (charge run.rule)

abbrev charges : Pass → List Charge
charges s = expand s.breakdown ++ open_charges s.current

-- The run under way is of a rule of the list, and the closed charges are added up.
abbrev RunPlaced : List PricingRuleInput → Option Run → Type 0
RunPlaced rules none = Unit
RunPlaced rules (some run) = IsPlaced rules run.rule

record IsSound (rules : List PricingRuleInput) (s : Pass) : Type 0 where
  placed : RunPlaced rules s.current
  added : s.rate_minutes ≡ sum_rates (expand s.breakdown)

flush_run-charges :
    (r : Option Run) (s : Pass)
    → expand (flush_run r s).breakdown ≡ expand s.breakdown ++ open_charges r
unfolding flush_run segment_of
flush_run-charges none s = sym (append-nil _)
flush_run-charges (some run) s =
    expand-append s.breakdown (segment_of run ∷ []) ∙ ap (◌++◌ (expand s.breakdown)) (append-nil _)

flush_run-added :
    (r : Option Run) (s : Pass)
    → s.rate_minutes ≡ sum_rates (expand s.breakdown)
    → (flush_run r s).rate_minutes ≡ sum_rates (expand (flush_run r s).breakdown)
unfolding flush_run segment_of
flush_run-added none s h = h
flush_run-added (some run) s h = omega (
  arith,
  h,
  ap sum_rates (expand-append s.breakdown (segment_of run ∷ [])),
  ap sum_rates (append-nil (open_charges (some run))),
  sum_rates-append (expand s.breakdown) (open_charges (some run) ++ []),
  sum_rates-replicate run.count (charge run.rule),
)

module _ (rules : List PricingRuleInput) (w : Winner) (placed : IsPlaced rules w) (t : ℕ) where
  -- One round charges one minute.
  round-charges :
      (b : List PriceSegment) (n : ℕ) (r : Option Run)
      → IsSound rules (record { breakdown = b; rate_minutes = n; current = r })
      → charges (price_round w t (record { breakdown = b; rate_minutes = n; current = r }))
        ≡ (expand b ++ open_charges r) ++ charge w ∷ []
  unfolding price_round flush flush_run
  round-charges b n none h = simp append-nil
  round-charges b n (some run) h = elim (Bool-cases (same_rule run.rule w)) [
    | inl same ↦
        let e : run.rule ≡ w = same_rule-eq rules run.rule w h.placed placed same in
        rw (same, ← e) (simp (add-one, append_assoc, replicate-suc))
    | inr other ↦ rw other (simp (expand-append, append-nil, append_assoc))
  ]

  round-IsSound :
      (b : List PriceSegment) (n : ℕ) (r : Option Run)
      → IsSound rules (record { breakdown = b; rate_minutes = n; current = r })
      → IsSound rules (price_round w t (record { breakdown = b; rate_minutes = n; current = r }))
  unfolding price_round flush
  round-IsSound b n none h = record { placed = placed; added = h.added }
  round-IsSound b n (some run) h = elim (Bool-cases (same_rule run.rule w)) [
    | inl same ↦ rw same (record { placed = h.placed; added = h.added })
    | inr other ↦
        let s : Pass = record { breakdown = b; rate_minutes = n; current = some run } in
        rw other (record { placed = placed; added = flush_run-added (some run) s h.added })
  ]

module _ (rules : List PricingRuleInput) (tier_id : Option ℕ) (start : ℕ) where
  loop-charges :
      (left i : ℕ) (s : Pass)
      → IsSound rules s
      → (charges (price_loop rules tier_id start left i s)
          ≡ charges s ++ minute_charges rules tier_id start left i)
        × IsSound rules (price_loop rules tier_id start left i s)
  unfolding price_loop
  loop-charges zero i s h = (sym (append-nil (charges s)), h)
  loop-charges (suc left) i s h =
      let t = start + i * 60000 in
      let w = winner_at rules tier_id t in
      let p = winner_at-IsPlaced rules tier_id t in
      let next = price_round w t s in
      let sound : IsSound rules next =
        round-IsSound rules w p t s.breakdown s.rate_minutes s.current h in
      let (rest, kept) = loop-charges left (i + 1) next sound in
      (
        rest
            ∙ ap (λ cs. cs ++ minute_charges rules tier_id start left (i + 1))
                (round-charges rules w p t s.breakdown s.rate_minutes s.current h)
            ∙ append_assoc (charges s) _ _,
        kept,
      )

-- The breakdown, written out minute by minute, is the charge of each minute of the stay, from the
-- first to the last: the winning rule's label and hourly rate, or no label and rate 0.
pub expand-compute_price :
    (rules : List PricingRuleInput) (start minutes : ℕ) (tier_id : Option ℕ)
    → expand (compute_price rules start minutes tier_id).breakdown
      ≡ minute_charges rules tier_id start minutes 0
unfolding compute_price flush
expand-compute_price rules start minutes tier_id =
    let s = price_loop rules tier_id start minutes 0 first_pass in
    flush_run-charges s.current s
    ∙ (loop-charges rules tier_id start minutes 0 first_pass
        (record { placed = tt; added = refl })).0

-- The amount is the sum of the minutes' hourly rates over 60, rounded half up.
pub amount-compute_price :
    (rules : List PricingRuleInput) (start minutes : ℕ) (tier_id : Option ℕ)
    → (compute_price rules start minutes tier_id).amount
      ≡ round_hours (sum_rates (minute_charges rules tier_id start minutes 0))
unfolding compute_price flush
amount-compute_price rules start minutes tier_id =
    let s = price_loop rules tier_id start minutes 0 first_pass in
    let (same, sound) =
      loop-charges rules tier_id start minutes 0 first_pass
        (record { placed = tt; added = refl }) in
    ap round_hours (
      flush_run-added s.current s sound.added ∙ ap sum_rates (flush_run-charges s.current s ∙ same))
