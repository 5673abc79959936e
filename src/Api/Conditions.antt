-- ===== src/Api/Conditions.antt =====
-- k8s.io/apimachinery/pkg/api/meta, which keeps a list of conditions with one of each type. It is not
-- the program's code: its functions are parameters, with their documented behaviour as laws.
use paved.Base.{String, Bool, true, false, List, Option, none, some, ◌≡◌, ◌==◌, if◌then◌else◌}
use paved.Api.{Condition, Status, condition_true, condition_false, condition_unknown}

pub record Meta : Type 0 where
  -- FindStatusCondition and SetStatusCondition.
  pub find : List Condition → String → Option Condition
  pub set_condition : List Condition → Condition → List Condition

-- A condition that was set is found, with the fields that it was given; the others stay.
pub record MetaLaws (m : Meta) : Type 0 where
  pub find-set_condition :
      (cs : List Condition) (c : Condition) (t : String)
      → m.find (m.set_condition cs c) t ≡ (if c.type == t then some c else m.find cs t)

abbrev pub is_true : Status → Bool
is_true condition_true = true
is_true condition_false = false
is_true condition_unknown = false

-- Whether a condition is there and True: IsStatusConditionTrue, and the program's own
-- `c != nil && c.Status == metav1.ConditionTrue`.
abbrev pub holds : Option Condition → Bool
holds none = false
holds (some c) = is_true c.status
