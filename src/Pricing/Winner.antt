-- ===== src/Pricing/Winner.antt =====
-- `pickWinner` of apps/server/src/modules/sessions/pricing.ts: which rule prices a minute.
use gaming_cafe_management.Prelude.{
  ℕ, zero, suc, ◌+◌, ◌≤◌, ◌<◌, ◌≡◌, refl, ap, ◌∙◌, Bool-cases, ◌⊎◌, inl, inr, true, ◌&&◌, List, [],
  ◌∷◌, Option, none, some, arith, All, get_elem?, if◌then◌else◌,
}
use mathlib.Core.Path.{subst}
use gaming_cafe_management.Pricing.{
  PricingRuleInput, Winner, is_eligible, beats, pick_from, pick_winner, winner_at, utc_day,
  utc_minute, same_rule,
}

-- The winner is there, and has the higher priority, or the same and at least the rate.
abbrev pub Covers : Winner → PricingRuleInput → Type 0
Covers none rule = ⊥
Covers (some (_, w)) rule =
    (rule.priority < w.priority)
    ⊎ ((rule.priority ≡ w.priority) × (rule.hourly_rate ≤ w.hourly_rate))

-- A winner stands in the list at its place, and passes the tests.
abbrev pub Stands : Option ℕ → ℕ → ℕ → List PricingRuleInput → Winner → Type 0
Stands tier_id day minute rules none = Unit
Stands tier_id day minute rules (some (i, rule)) =
    (get_elem? rules i ≡ some rule) × (is_eligible tier_id day minute rule ≡ true)

module _ (tier_id : Option ℕ) (day minute : ℕ) where
  abbrev choose : ℕ → Winner → PricingRuleInput → Winner
  choose i w rule =
      if is_eligible tier_id day minute rule && beats rule w then some (i, rule) else w

  choose-keeps :
      (i : ℕ) (w : Winner) (rule q : PricingRuleInput) → Covers w q → Covers (choose i w rule) q
  unfolding beats
  choose-keeps i none rule q h = absurd h
  choose-keeps i (some (j, w)) rule q h = ground arith

  choose-Covers :
      (i : ℕ) (w : Winner) (rule : PricingRuleInput)
      → is_eligible tier_id day minute rule ≡ true
      → Covers (choose i w rule) rule
  unfolding beats
  choose-Covers i none rule h = ground arith
  choose-Covers i (some (j, w)) rule h = ground arith

  pick_from-keeps :
      (i : ℕ) (w : Winner) (rules : List PricingRuleInput) (q : PricingRuleInput)
      → Covers w q
      → Covers (pick_from tier_id day minute i w rules) q
  unfolding pick_from
  pick_from-keeps i w [] q h = h
  pick_from-keeps i w (rule ∷ rules) q h =
      pick_from-keeps (suc i) (choose i w rule) rules q (choose-keeps i w rule q h)

  pick_from-Covers :
      (i : ℕ) (w : Winner) (rules : List PricingRuleInput)
      → All
          (λ q.
            is_eligible tier_id day minute q ≡ true
            → Covers (pick_from tier_id day minute i w rules) q)
          rules
  unfolding pick_from
  pick_from-Covers i w [] = tt
  pick_from-Covers i w (rule ∷ rules) = (
    λ h. pick_from-keeps (suc i) (choose i w rule) rules rule (choose-Covers i w rule h),
    pick_from-Covers (suc i) (choose i w rule) rules,
  )

  -- The winner so far, or an eligible rule of the list, whose first place is `i`.
  abbrev Picked : ℕ → Winner → List PricingRuleInput → Winner → Type 0
  Picked i w rules v =
      (v ≡ w)
      ⊎ ((k : ℕ) × (rule : PricingRuleInput) × (v ≡ some (i + k, rule))
          × (get_elem? rules k ≡ some rule)
          × (is_eligible tier_id day minute rule ≡ true))

  Picked-choose :
      (i : ℕ) (w : Winner) (rule : PricingRuleInput) (rules : List PricingRuleInput)
      → Picked i w (rule ∷ rules) (choose i w rule)
  Picked-choose i w rule rules =
      elim (Bool-cases (is_eligible tier_id day minute rule && beats rule w)) [
        | inl taken ↦ inr (0, rule, rw taken (ground arith), refl, ground arith)
        | inr left ↦ inl (rw left)
      ]

  Picked-next :
      (i : ℕ) (w : Winner) (rule : PricingRuleInput) (rules : List PricingRuleInput) (v : Winner)
      → Picked (suc i) (choose i w rule) rules v
      → Picked i w (rule ∷ rules) v
  Picked-next i w rule rules v (inl e) = rw e (Picked-choose i w rule rules)
  Picked-next i w rule rules v (inr (k, r, e, at, good)) =
      inr (suc k, r, e ∙ ap (λ (n : ℕ). some (n, r)) (omega arith), at, good)

  pick_from-Picked :
      (i : ℕ) (w : Winner) (rules : List PricingRuleInput)
      → Picked i w rules (pick_from tier_id day minute i w rules)
  unfolding pick_from
  pick_from-Picked i w [] = inl refl
  pick_from-Picked i w (rule ∷ rules) =
      Picked-next i w rule rules _ (pick_from-Picked (suc i) (choose i w rule) rules)

  Picked-Stands :
      (rules : List PricingRuleInput) (v : Winner)
      → Picked 0 none rules v
      → Stands tier_id day minute rules v
  Picked-Stands rules none h = tt
  Picked-Stands rules (some (i, r)) (inl e) = cc
  Picked-Stands rules (some (i, r)) (inr (k, q, e, at, good)) = ground arith

  pub pick_winner-best :
      (rules : List PricingRuleInput)
      → Stands tier_id day minute rules (pick_winner rules tier_id day minute)
        × All
            (λ q.
              is_eligible tier_id day minute q ≡ true
              → Covers (pick_winner rules tier_id day minute) q)
            rules
  unfolding pick_winner
  pick_winner-best rules =
      (Picked-Stands rules _ (pick_from-Picked 0 none rules), pick_from-Covers 0 none rules)

  All-get :
      (P : PricingRuleInput → Type 0) (rules : List PricingRuleInput) (i : ℕ) (q : PricingRuleInput)
      → All P rules
      → get_elem? rules i ≡ some q
      → P q
  All-get P [] i q h at = absurd (ground arith)
  All-get P (r ∷ rs) zero q h at = let same : r ≡ q = cc in subst P same h.0
  All-get P (r ∷ rs) (suc i) q h at = All-get P rs i q h.1 at

  -- Where a rule of the list is active, of the tier or of every tier, of the day and of the minute,
  -- there is a winner. It stands in the list and passes the same tests, and the rule has not a higher
  -- priority, nor the same priority and a higher rate.
  pub pick_winner-greatest :
      (rules : List PricingRuleInput) (i : ℕ) (q : PricingRuleInput)
      → get_elem? rules i ≡ some q
      → is_eligible tier_id day minute q ≡ true
      → Stands tier_id day minute rules (pick_winner rules tier_id day minute)
        × Covers (pick_winner rules tier_id day minute) q
  pick_winner-greatest rules i q at fit =
      let (stands, covers) = pick_winner-best rules in
      (
        stands,
        All-get
            (λ r.
              is_eligible tier_id day minute r ≡ true
              → Covers (pick_winner rules tier_id day minute) r)
            rules i q covers at fit,
      )

-- The winner at an instant stands in the list of rules.
abbrev pub IsPlaced : List PricingRuleInput → Winner → Type 0
IsPlaced rules none = Unit
IsPlaced rules (some (i, rule)) = get_elem? rules i ≡ some rule

Stands-IsPlaced :
    (tier_id : Option ℕ) (day minute : ℕ) (rules : List PricingRuleInput) (w : Winner)
    → Stands tier_id day minute rules w
    → IsPlaced rules w
Stands-IsPlaced tier_id day minute rules none h = tt
Stands-IsPlaced tier_id day minute rules (some (i, rule)) h = h.0

pub winner_at-IsPlaced :
    (rules : List PricingRuleInput) (tier_id : Option ℕ) (t : ℕ)
    → IsPlaced rules (winner_at rules tier_id t)
unfolding winner_at
winner_at-IsPlaced rules tier_id t =
    Stands-IsPlaced tier_id (utc_day t) (utc_minute t) rules _
      (pick_winner-best tier_id (utc_day t) (utc_minute t) rules).0

-- Two winners of one list at one place are the same.
pub same_rule-eq :
    (rules : List PricingRuleInput) (v w : Winner)
    → IsPlaced rules v
    → IsPlaced rules w
    → same_rule v w ≡ true
    → v ≡ w
same_rule-eq rules none none p q h = refl
same_rule-eq rules none (some y) p q h = cc
same_rule-eq rules (some x) none p q h = cc
same_rule-eq rules (some (i, r)) (some (j, s)) p q h = let e : i ≡ j = ground arith in cc
