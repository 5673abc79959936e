-- ===== src/Controller/SloStatus/Laws.antt =====
-- What every reading of an SLO says, whatever Prometheus answers, and what the freeze makes of it.
use paved.Base.{
  ◌<◌, String, Bool, true, false, List, ◌∷◌, Option, none, some, Rat, rat, Result, ok, err,
  is_no_data, is_positive, ◌⊎◌, inl, inr, ◌≡◌, refl, ◌∙◌, arith, Bool-cases,
}
use paved.Api.{ServiceClaim, condition_true, condition_unknown, condition_slo_healthy}
use paved.Runtime.{Runtime}
use paved.Runtime.Laws.{FloatLaws}
use paved.Slo.Budget.{error_budget, BudgetUse, spend_budget, burn_rate}
use paved.Slo.Budget.Spend.{spend_budget_lem}
use paved.Slo.Rules.{error_ratio_expr}
use paved.Slo.Alerts.{fastest_alert, rate}
use paved.Builders.Names.{namespace_name}
use paved.Builders.Monitoring.{record_query}
use paved.Controller.Env.{Env, query, Request}
use paved.Controller.Freeze.{SloReport}
use paved.Controller.Freeze.Laws.{is_exhausted}
use paved.Controller.SloStatus.{
  unmeasured, measured, with_hour, without_hour, report_of, after_hour, ask, ask_hour, after_window,
  ask_window, evaluate_slo, burn_rate_window,
}

module _ (go : Runtime) where
  open go use {Float, of_rat, is_nan, is_inf, le_float}

  -- A report without a measurement is Unknown and has no numbers, and a healthy one has budget left.
  pub record Consistent (report : SloReport go) : Type 0 where
    pub typed : report.condition.type ≡ condition_slo_healthy
    pub silent :
        (report.measured ≡ true)
        ⊎ ((report.condition.status ≡ condition_unknown)
            × (report.budget_remaining ≡ "")
            × (report.burn_rate_1h ≡ ""))
    pub healthy :
        ¬ (report.condition.status ≡ condition_true)
        ⊎ ((report.measured ≡ true) × (is_exhausted go report ≡ false))

  unmeasured-Consistent :
      (claim : ServiceClaim) (reason text : String) → Consistent (unmeasured go claim reason text)
  unfolding unmeasured
  unmeasured-Consistent claim reason text = record {
    typed = refl;
    silent = inr (refl, refl, refl);
    healthy = inl (λ e. cc);
  }

  without_hour-Consistent :
      (claim : ServiceClaim) (use_of : BudgetUse go) → Consistent (without_hour go claim use_of)
  unfolding without_hour measured
  without_hour-Consistent claim use_of = record {
    typed = ground arith;
    silent = inl (ground arith);
    healthy = ground arith;
  }

  with_hour-Consistent :
      (claim : ServiceClaim) (fast : Float) (use_of : BudgetUse go) (hour : Float)
      → Consistent (with_hour go claim fast use_of hour)
  unfolding with_hour measured
  with_hour-Consistent claim fast use_of hour = record {
    typed = ground arith;
    silent = inl (ground arith);
    healthy = ground arith;
  }

  measured_unknown :
      (claim : ServiceClaim) (use_of : BudgetUse go) (reason text : String)
      → Consistent (measured go claim use_of "" condition_unknown reason text)
  unfolding measured
  measured_unknown claim use_of reason text = record {
    typed = refl;
    silent = inl refl;
    healthy = inl (λ e. cc);
  }

  module _ (claim : ServiceClaim) (budget : Rat) (fast : Float) where
    report_of-Consistent :
        (ratio : Float) (hour : Option Float)
        → Consistent (report_of go claim budget fast ratio hour)
    unfolding report_of
    report_of-Consistent ratio hour = by_use hour (spend_budget go ratio (some budget)) refl
      where
        by_hour :
            (use_of : BudgetUse go) (x : Float) (b : Result Float)
            → spend_budget go ratio (some budget) ≡ ok use_of
            → burn_rate go x (some budget) ≡ b
            → Consistent (report_of go claim budget fast ratio (some x))
        by_hour use_of x (ok hour_rate) e f =
            rw (e, f, report_of) (with_hour-Consistent claim fast use_of hour_rate)
        by_hour use_of x (err g) e f = rw (e, f, report_of) (measured_unknown claim use_of _ _)

        by_use :
            (hour : Option Float) (u : Result (BudgetUse go))
            → spend_budget go ratio (some budget) ≡ u
            → Consistent (report_of go claim budget fast ratio hour)
        by_use hour (err e) f = rw (f, report_of) (unmeasured-Consistent claim _ _)
        by_use none (ok use_of) f = rw (f, report_of) (without_hour-Consistent claim use_of)
        by_use (some x) (ok use_of) f = by_hour use_of x (burn_rate go x (some budget)) f refl

    after_hour-Consistent :
        (ratio : Option Float) (answer : Result Float)
        → Consistent (after_hour go claim budget fast ratio answer)
    unfolding after_hour
    after_hour-Consistent none (ok hour) = unmeasured-Consistent claim _ _
    after_hour-Consistent (some ratio) (ok hour) = report_of-Consistent ratio (some hour)
    after_hour-Consistent none (err e) = elim (Bool-cases (is_no_data e)) [
      | inl sure ↦ rw sure (unmeasured-Consistent claim _ _)
      | inr never ↦ rw never (unmeasured-Consistent claim _ _)
    ]
    after_hour-Consistent (some ratio) (err e) = elim (Bool-cases (is_no_data e)) [
      | inl sure ↦ rw sure (report_of-Consistent ratio none)
      | inr never ↦ rw never (unmeasured-Consistent claim _ _)
    ]

  module _ (env : Env go) (claim : ServiceClaim) (h : List Request) where
    after_window-Consistent :
        (budget : Rat) (fast : Float) (answer : Result Float) (k : List Request)
        → Consistent (after_window go env claim budget fast answer k).0
    unfolding after_window ask_hour ask
    after_window-Consistent budget fast (ok ratio) k =
        after_hour-Consistent claim budget fast (some ratio) _
    after_window-Consistent budget fast (err e) k = elim (Bool-cases (is_no_data e)) [
      | inl sure ↦ rw sure (after_hour-Consistent claim budget fast none _)
      | inr never ↦ rw never (unmeasured-Consistent claim _ _)
    ]

    -- Every reading of an SLO, whatever Prometheus answers: the condition is SLOHealthy's; without a
    -- measurement it is Unknown and no number is reported; and if it is True, a budget was measured
    -- that is not used up.
    pub evaluate_slo-Consistent :
        (prometheus : Bool) → Consistent (evaluate_slo go env prometheus claim h).0
    unfolding evaluate_slo ask_window ask
    evaluate_slo-Consistent false = unmeasured-Consistent claim _ _
    evaluate_slo-Consistent true = by_budget (error_budget go claim.spec.slo.objective) refl
      where
        by_query :
            (budget : Rat) (fast : Float) (q : Result String)
            → error_budget go claim.spec.slo.objective ≡ ok budget
            → rate go fastest_alert ≡ ok fast
            → error_ratio_expr go claim.spec.sli (namespace_name claim) claim.spec.slo.window ≡ q
            → Consistent (evaluate_slo go env true claim h).0
        by_query budget fast (ok q) d e f =
            rw (d, e, f, evaluate_slo) (after_window-Consistent budget fast _ _)
        by_query budget fast (err g) d e f =
            rw (d, e, f, evaluate_slo) (unmeasured-Consistent claim _ _)

        by_rate :
            (budget : Rat) (fast : Result Float)
            → error_budget go claim.spec.slo.objective ≡ ok budget
            → rate go fastest_alert ≡ fast
            → Consistent (evaluate_slo go env true claim h).0
        by_rate budget (ok fast) d e = by_query budget fast _ d e refl
        by_rate budget (err g) d e = rw (d, e, evaluate_slo) (unmeasured-Consistent claim _ _)

        by_budget :
            (budget : Result Rat)
            → error_budget go claim.spec.slo.objective ≡ budget
            → Consistent (evaluate_slo go env true claim h).0
        by_budget (ok budget) d = by_rate budget _ d refl
        by_budget (err g) d = rw (d, evaluate_slo) (unmeasured-Consistent claim _ _)

  -- A report says what the budget's use says, once there is one.
  report_of-measures :
      (claim : ServiceClaim) (budget : Rat) (fast ratio : Float) (use_of : BudgetUse go)
      (hour : Option Float)
      → spend_budget go ratio (some budget) ≡ ok use_of
      → is_exhausted go (report_of go claim budget fast ratio hour)
        ≡ le_float use_of.remaining (of_rat (rat 0 1))
  unfolding report_of with_hour without_hour measured
  report_of-measures claim budget fast ratio use_of none e = rw (e, report_of) (ground arith)
  report_of-measures claim budget fast ratio use_of (some x) e =
      by_rate (burn_rate go x (some budget)) refl
    where
      by_rate :
          (b : Result Float)
          → burn_rate go x (some budget) ≡ b
          → is_exhausted go (report_of go claim budget fast ratio (some x))
            ≡ le_float use_of.remaining (of_rat (rat 0 1))
      by_rate (ok hour_rate) f = rw (e, f, report_of) (ground arith)
      by_rate (err g) f = rw (e, f, report_of) refl

  module _ (env : Env go) (claim : ServiceClaim) (h : List Request) where
    -- The last hour's error ratio, or that there is none, as opposed to a failed query.
    abbrev pub HourAnswered : Result Float → Type 0
    HourAnswered (ok hour) = Unit
    HourAnswered (err e) = is_no_data e ≡ true

    -- A reading of an SLO finds the budget used up exactly if the window's error ratio has reached
    -- the budget: for a spec with a budget, a rate of the fastest alert and a query, a ratio that
    -- is a finite number, an answer for the last hour, be it that there is no data, and a positive
    -- budget whose float64 is still positive, with the laws of floats.
    pub evaluate_slo-exhausted :
        (laws : FloatLaws go) (budget : Rat) (fast ratio : Float) (q : String)
        → error_budget go claim.spec.slo.objective ≡ ok budget
        → rate go fastest_alert ≡ ok fast
        → error_ratio_expr go claim.spec.sli (namespace_name claim) claim.spec.slo.window ≡ ok q
        → env.query_answer h q ≡ ok ratio
        → HourAnswered (env.query_answer (query q ∷ h) (record_query go claim burn_rate_window))
        → is_nan ratio ≡ false
        → is_inf ratio ≡ false
        → is_positive budget.num ≡ true
        → 0 < budget.den
        → le_float (of_rat budget) (of_rat (rat 0 1)) ≡ false
        → is_exhausted go (evaluate_slo go env true claim h).0 ≡ le_float (of_rat budget) ratio
    unfolding evaluate_slo ask_window ask after_window ask_hour after_hour
    evaluate_slo-exhausted laws budget fast ratio q d e f g hour number finite positive proper
          visible =
        let (use_of, spent, _, _, left) =
          spend_budget_lem go laws ratio budget number finite positive proper visible in
        rw (d, e, f, g, evaluate_slo, after_window) (by_hour use_of spent _ hour ∙ left)
      where
        by_hour :
            (use_of : BudgetUse go)
            → spend_budget go ratio (some budget) ≡ ok use_of
            → (answer : Result Float) → HourAnswered answer
            → is_exhausted go (after_hour go claim budget fast (some ratio) answer)
              ≡ le_float use_of.remaining (of_rat (rat 0 1))
        by_hour use_of spent (ok x) _ =
            report_of-measures claim budget fast ratio use_of (some x) spent
        by_hour use_of spent (err g) k =
            rw k (report_of-measures claim budget fast ratio use_of none spent)
