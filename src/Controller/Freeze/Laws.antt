-- ===== src/Controller/Freeze/Laws.antt =====
-- The deploy freeze as a state machine: when one reconcile freezes and unfreezes, and what holds over
-- a sequence of reconciles.
use paved.Base.{String, Bool, true, false, not, ◌&&◌, List, [], ◌∷◌, ◌≡◌, refl, arith, All, rat}
use paved.Api.Conditions.{is_true}
use paved.Runtime.{Runtime, lt_float}
use paved.Controller.Freeze.{SloReport, unfreeze_budget, freeze_decision}

module _ (go : Runtime) where
  open go use {of_rat, le_float}

  abbrev pub frozen_after : Bool → String → SloReport go → Bool
  frozen_after was_frozen window report = is_true (freeze_decision go was_frozen window report).0

  -- A measured report with no budget left, and one with UnfreezeBudget of it back.
  abbrev pub is_exhausted : SloReport go → Bool
  is_exhausted report = report.measured && le_float report.remaining (of_rat (rat 0 1))

  abbrev pub is_recovered : SloReport go → Bool
  is_recovered report =
      report.measured
      && not (le_float report.remaining (of_rat (rat 0 1)))
      && not (lt_float go report.remaining (unfreeze_budget go))

  -- Deploys that were not frozen are frozen exactly when a measured budget has nothing left; deploys
  -- that were frozen are unfrozen exactly when a measured budget has 5% of it back.
  pub freeze_transitions :
      (window : String) (report : SloReport go)
      → (frozen_after false window report ≡ is_exhausted report)
        × (frozen_after true window report ≡ not (is_recovered report))
  unfolding freeze_decision
  freeze_transitions window report = (ground arith, ground arith)

  -- The state after a sequence of reconciles.
  unfoldable pub frozen_over : Bool → String → List (SloReport go) → Bool
  frozen_over frozen window [] = frozen
  frozen_over frozen window (report ∷ reports) =
      frozen_over (frozen_after frozen window report) window reports

  stays_frozen :
      (window : String) (reports : List (SloReport go))
      → All (λ report. is_recovered report ≡ false) reports
      → frozen_over true window reports ≡ true
  unfolding frozen_over
  stays_frozen window [] h = refl
  stays_frozen window (report ∷ reports) (h, k) =
      rw ((freeze_transitions window report).1, h) (stays_frozen window reports k)

  -- A freeze lasts: after a report with no budget left, deploys stay frozen over any further reports
  -- of which none measures 5% of the budget or more, whatever came before.
  pub freeze_lasts :
      (frozen : Bool) (window : String) (report : SloReport go) (reports : List (SloReport go))
      → is_exhausted report ≡ true
      → All (λ later. is_recovered later ≡ false) reports
      → frozen_over frozen window (report ∷ reports) ≡ true
  unfolding frozen_over
  freeze_lasts false window report reports h k =
      rw ((freeze_transitions window report).0, h) (stays_frozen window reports k)
  freeze_lasts true window report reports h k =
      rw (freeze_transitions window report).1
        (rw exhausted-recovered (stays_frozen window reports k))
    where
      exhausted-recovered : is_recovered report ≡ false
      exhausted-recovered = ground arith

  -- Over any reports without a measured budget, deploys stay as they were, frozen or not.
  pub freeze_keeps :
      (frozen : Bool) (window : String) (reports : List (SloReport go))
      → All (λ report. report.measured ≡ false) reports
      → frozen_over frozen window reports ≡ frozen
  unfolding frozen_over freeze_decision
  freeze_keeps frozen window [] h = refl
  freeze_keeps false window (report ∷ reports) (h, k) = rw h (freeze_keeps false window reports k)
  freeze_keeps true window (report ∷ reports) (h, k) = rw h (freeze_keeps true window reports k)
