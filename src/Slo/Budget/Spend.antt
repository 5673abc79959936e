-- ===== src/Slo/Budget/Spend.antt =====
-- Burn rates and what is left of a budget: for a positive budget and a ratio that is a number.
use paved.Base.{◌≡◌, ◌∙◌, ◌<◌, true, false, some, Rat, rat, is_positive, ok, arith}
use paved.Runtime.{Runtime, max_float, min_float}
use paved.Runtime.Laws.{FloatLaws}
use paved.Slo.Budget.{BudgetUse, burn_rate, spend_budget}

module _ (go : Runtime) (laws : FloatLaws go) where
  open go use {Float, of_rat, is_nan, is_inf, le_float, sub_float, div_float}

  -- The ratio that is divided: a negative one counts as 0.
  abbrev clamped : Float → Float
  clamped x = max_float go x (of_rat (rat 0 1))

  clamped-nan : (x : Float) → is_nan x ≡ false → is_nan (clamped x) ≡ false
  unfolding max_float
  clamped-nan x h = ground (arith, laws.rat-nan (rat 0 1))

  zero-le-clamped : (x : Float) → is_nan x ≡ false → le_float (of_rat (rat 0 1)) (clamped x) ≡ true
  unfolding max_float
  zero-le-clamped x h = ground (
    arith,
    laws.rat-nan (rat 0 1),
    laws.le_total (of_rat (rat 0 1)) (of_rat (rat 0 1)),
    laws.le_total x (of_rat (rat 0 1)),
  )

  -- The limits of max(x, 0) capped at 1.
  remaining_bounds :
      (x : Float)
      → is_nan x ≡ false
      → let r = min_float go (clamped x) (of_rat (rat 1 1)) in
        (le_float (of_rat (rat 0 1)) r ≡ true) × (le_float r (of_rat (rat 1 1)) ≡ true)
  unfolding min_float
  remaining_bounds x h = ground (
    arith,
    clamped-nan x,
    zero-le-clamped x,
    laws.rat-nan (rat 1 1),
    laws.zero-le-one,
    laws.le_total (of_rat (rat 1 1)) (of_rat (rat 1 1)),
    laws.le_total (clamped x) (of_rat (rat 1 1)),
  )

  -- It is at most 0 exactly when x is.
  remaining-le-zero :
      (x : Float)
      → is_nan x ≡ false
      → le_float (min_float go (clamped x) (of_rat (rat 1 1))) (of_rat (rat 0 1))
        ≡ le_float x (of_rat (rat 0 1))
  unfolding min_float max_float
  remaining-le-zero x h = ground (
    arith,
    laws.rat-nan (rat 1 1),
    laws.rat-nan (rat 0 1),
    laws.one-le-zero,
    laws.le_total (of_rat (rat 0 1)) (of_rat (rat 0 1)),
    laws.le_total x (of_rat (rat 0 1)),
    laws.le_total x (of_rat (rat 1 1)),
  )

  clamped-inf : (x : Float) → is_inf x ≡ false → is_inf (clamped x) ≡ false
  unfolding max_float
  clamped-inf x h = ground (arith, laws.zero-inf)

  -- A positive number is at most max(x, 0) exactly when it is at most x.
  le-clamped :
      (b x : Float)
      → is_nan x ≡ false
      → le_float b (of_rat (rat 0 1)) ≡ false
      → le_float b (clamped x) ≡ le_float b x
  unfolding max_float
  le-clamped b x h k = ground (arith, laws.rat-nan (rat 0 1), laws.le_trans b x (of_rat (rat 0 1)))

  module _ (ratio : Float) (budget : Rat) (number : is_nan ratio ≡ false)
      (finite : is_inf ratio ≡ false) (positive : is_positive budget.num ≡ true)
      (proper : 0 < budget.den)
      (visible : le_float (of_rat budget) (of_rat (rat 0 1)) ≡ false) where
    pub burn_rate_lem :
        burn_rate go ratio (some budget) ≡ ok (div_float (clamped ratio) (of_rat budget))
    unfolding burn_rate
    burn_rate_lem = ground arith

    rate-nan : is_nan (div_float (clamped ratio) (of_rat budget)) ≡ false
    rate-nan =
        laws.div-nan (clamped ratio) (of_rat budget) (clamped-nan ratio number)
          (clamped-inf ratio finite) visible (laws.rat-nan budget proper)

    left-nan :
        is_nan (sub_float (of_rat (rat 1 1)) (div_float (clamped ratio) (of_rat budget))) ≡ false
    left-nan =
        laws.sub-nan (of_rat (rat 1 1)) (div_float (clamped ratio) (of_rat budget))
          (laws.rat-nan (rat 1 1) (omega arith)) laws.one-inf rate-nan

    -- No error, a share left between 0 and 1, and none left exactly when the error ratio has
    -- reached the budget: for a ratio that is a finite number, and a positive budget whose float64
    -- is still positive, with the laws of floats.
    pub spend_budget_lem :
        (use_of : BudgetUse go) × (spend_budget go ratio (some budget) ≡ ok use_of)
        × (le_float (of_rat (rat 0 1)) use_of.remaining ≡ true)
        × (le_float use_of.remaining (of_rat (rat 1 1)) ≡ true)
        × (le_float use_of.remaining (of_rat (rat 0 1)) ≡ le_float (of_rat budget) ratio)
    unfolding spend_budget
    spend_budget_lem =
        let rate = div_float (clamped ratio) (of_rat budget) in
        let bounds = remaining_bounds (sub_float (of_rat (rat 1 1)) rate) left-nan in
        (
          record {
            consumed = rate;
            remaining =
                min_float go (clamped (sub_float (of_rat (rat 1 1)) rate)) (of_rat (rat 1 1));
          },
          rw burn_rate_lem,
          bounds.0,
          bounds.1,
          remaining-le-zero _ left-nan
              ∙ laws.sub-le-zero (of_rat (rat 1 1)) rate (laws.rat-nan (rat 1 1) (omega arith))
                  laws.one-inf rate-nan
              ∙ laws.one-le-div (clamped ratio) (of_rat budget) (clamped-nan ratio number)
                  (clamped-inf ratio finite) visible (laws.rat-nan budget proper)
              ∙ le-clamped (of_rat budget) ratio number visible,
        )
