-- ===== src/Examples/Deploys.antt =====
-- An image change that breaks the glass during a freeze.
use paved.Base.{true, false, [], ◌∷◌, none, ok, ◌≡◌, refl, ap, sym, trim_space, lookup}
use paved.Webhook.{
  AdmissionRequest, is_dry_run, validate_update, review_change, review_break_glass,
  break_glass_reason, break_glass_warning,
}
use paved.Webhook.Outcome.{IsAdmitted, review}
use paved.Deploys.{Live, Run, stay, more, updated, with_update, with_event, Step}
use paved.Deploys.Laws.{changes, Audits, Run-Audits}
use paved.Examples.Numbers.{go}
use paved.Examples.Claims.{newest_first, newest_first-MetaLaws}
use paved.Examples.Freezes.{frozen_claim, patched, request}

abbrev before : Live
before = record { claim = frozen_claim; events = [] }

abbrev behind : Live
behind = record {
  claim = with_update patched frozen_claim;
  events = with_event (review go newest_first true frozen_claim patched request).event [];
}

is_wet : (req : AdmissionRequest) → request ≡ ok req → is_dry_run req.dry_run ≡ false
is_wet req e =
    let same : record { username = "ada"; dry_run = none } ≡ req = cc in
    ap (λ (r : AdmissionRequest). is_dry_run r.dry_run) (sym same)

let_through : IsAdmitted (review go newest_first true frozen_claim patched request)
unfolding validate_update review_change review_break_glass break_glass_reason trim_space lookup
let_through = (break_glass_warning ∷ [], refl)

abbrev step : Step go newest_first before behind
step = updated patched request is_wet let_through

abbrev deploy : Run go newest_first before behind
deploy = more stay step tt

Run-Audits_example : Audits go newest_first before behind (changes go newest_first deploy)
Run-Audits_example = Run-Audits go newest_first newest_first-MetaLaws before behind deploy refl
