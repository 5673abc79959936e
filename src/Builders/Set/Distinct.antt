-- ===== src/Builders/Set/Distinct.antt =====
-- No two objects of a claim have the same kind and name, so that no apply replaces another's object.
use Prim.Native.String
use text.Mathlib.TextPositions.{len-append}
use paved.Base.{
  String, Bool, true, false, not, ◌&&◌, List, [], ◌∷◌, ◌++◌, map, Option, none, some, ok, ◌≡◌, refl,
  sym, ap, ◌∙◌, arith, ◌==◌, if◌then◌else◌, All, concat, eq_iff, Bool-cases, inl, inr,
}
use mathlib.Core.Path.{subst}
use paved.Api.{ServiceClaim, tier_public}
use paved.Runtime.{Runtime}
use paved.Builders.Objects.{Object, Kind, kind_name}
use paved.Builders.Names.{runbook_name, object_meta}
use paved.Builders.Storage.{StorageConfig, has_storage, build_storage_role, build_storage_bucket}
use paved.Builders.Dashboard.{build_dashboard}
use paved.Builders.Runbook.{build_runbook}
use paved.Builders.Monitoring.{
  build_prometheus_rule, build_service_monitor, build_analysis_template,
}
use paved.Builders.Set.{build, objects_of, storage_objects}
use paved.Builders.Set.Laws.{build-eq-ok}
use paved.Builders.Workload.{
  has_autoscaling, has_canary_analysis, build_rollout, build_hpa, build_pod_disruption_budget,
  build_service, build_namespace, build_service_account,
}
use paved.Builders.Network.{build_network_policy, build_ingress}
use paved.Builders.Set.Kinds.{object_kind}

-- Two objects are not both of the same kind and of the same name.
abbrev pub Apart : Object → Object → Type 0
Apart o p = ¬ ((object_kind o ≡ object_kind p) × (o.meta.name ≡ p.meta.name))

abbrev pub AllApart : List Object → Type 0
AllApart [] = Unit
AllApart (o ∷ os) = All (Apart o) os × AllApart os

-- What tells an object apart: its kind, and of a ConfigMap, of which a claim has two, its name.
data Tag : Type 0 where
  of_kind : Kind → Tag
  config : String → Tag

tag_of : Kind → String → Tag
tag_of Kind.config_map name = config name
tag_of kind name = of_kind kind

abbrev tag : Object → Tag
tag o = tag_of (object_kind o) o.meta.name

same_tag : Tag → Tag → Bool
same_tag (of_kind j) (of_kind k) = kind_name j == kind_name k
same_tag (config s) (config t) = s == t
same_tag _ _ = false

is_new : Tag → List Tag → Bool
is_new t [] = true
is_new t (u ∷ us) = not (same_tag t u) && is_new t us

all_new : List Tag → Bool
all_new [] = true
all_new (t ∷ ts) = is_new t ts && all_new ts

same_tag_refl : (t : Tag) → same_tag t t ≡ true
unfolding same_tag
same_tag_refl (of_kind k) = (eq_iff (kind_name k) (kind_name k)).1 refl
same_tag_refl (config s) = (eq_iff s s).1 refl

Apart-tags : (o p : Object) → same_tag (tag o) (tag p) ≡ false → Apart o p
Apart-tags o p differ (kinds_same, names_same) =
    let same : tag o ≡ tag p = rw (kinds_same, names_same) in
    let held : same_tag (tag o) (tag p) ≡ true = rw (← same) (same_tag_refl (tag o)) in
    let no_way = sym held ∙ differ in cc

is_new-All : (o : Object) (os : List Object) → is_new (tag o) (map tag os) ≡ true → All (Apart o) os
unfolding is_new
is_new-All o [] h = tt
is_new-All o (p ∷ os) h = (Apart-tags o p (ground arith), is_new-All o os (ground arith))

all_new-AllApart : (os : List Object) → all_new (map tag os) ≡ true → AllApart os
unfolding all_new
all_new-AllApart [] h = tt
all_new-AllApart (o ∷ os) h = (is_new-All o os (ground arith), all_new-AllApart os (ground arith))

-- The tags of a claim's objects, given the names of the dashboard and of the runbook.
tags : Bool → Bool → Bool → Bool → String → String → List Tag
tags with_storage with_canary with_scaling with_ingress dashboard runbook =
    of_kind Kind.namespace
      ∷ of_kind Kind.service_account
      ∷ (if with_storage then of_kind Kind.role ∷ of_kind Kind.bucket ∷ [] else [])
    ++ ((if with_canary then of_kind Kind.analysis_template ∷ [] else [])
        ++ (of_kind Kind.rollout
              ∷ of_kind Kind.network_policy
              ∷ of_kind Kind.prometheus_rule
              ∷ of_kind Kind.service_monitor
              ∷ config dashboard
              ∷ config runbook
              ∷ (if with_scaling
                  then of_kind Kind.service
                    ∷ of_kind Kind.horizontal_pod_autoscaler
                    ∷ of_kind Kind.pod_disruption_budget
                    ∷ []
                  else [])
            ++ (if with_ingress then of_kind Kind.ingress ∷ [] else [])))

tags-new : (s c a i : Bool) (x y : String) → (x == y) ≡ false → all_new (tags s c a i x y) ≡ true
unfolding tags all_new is_new same_tag
tags-new s c a i x y h = ground (arith, h)

config_names :
    (sc : ServiceClaim) → (concat (sc.name ∷ "-dashboard" ∷ []) == runbook_name sc) ≡ false
unfolding runbook_name
config_names sc = elim (Bool-cases (concat (sc.name ∷ "-dashboard" ∷ []) == runbook_name sc)) [
  | inr apart ↦ apart
  | inl same ↦
      let e : String.◌++◌ sc.name "-dashboard" ≡ String.◌++◌ sc.name "-runbook" =
        (eq_iff _ _).0 same in
      let n = ap String.len e in
      absurd (omega (arith, n, len-append sc.name "-dashboard", len-append sc.name "-runbook"))
]

module _ (go : Runtime) (sc : ServiceClaim) where
  dashboard-tag :
      (o : Object)
      → build_dashboard go sc ≡ ok o
      → tag o ≡ config (concat (sc.name ∷ "-dashboard" ∷ []))
  unfolding build_dashboard tag_of
  dashboard-tag o e = ground arith

  runbook-tag : (o : Object) → build_runbook go sc ≡ ok o → tag o ≡ config (runbook_name sc)
  unfolding build_runbook tag_of object_meta
  runbook-tag o e = ground arith

  rule-tag :
      (o : Object) → build_prometheus_rule go sc ≡ ok o → tag o ≡ of_kind Kind.prometheus_rule
  unfolding build_prometheus_rule tag_of
  rule-tag o e = ground arith

  objects_of-tags :
      (storage : Option StorageConfig) (rule dashboard runbook : Object) (x y : String)
      → tag rule ≡ of_kind Kind.prometheus_rule
      → tag dashboard ≡ config x
      → tag runbook ≡ config y
      → map tag (objects_of go sc storage rule dashboard runbook)
        ≡ tags
            (has_storage sc storage)
            (has_canary_analysis sc)
            (has_autoscaling sc)
            (sc.spec.tier == tier_public)
            x
            y
  unfolding tags tag_of objects_of storage_objects has_storage build_namespace build_service_account
      build_storage_role build_storage_bucket build_analysis_template build_rollout
      build_network_policy build_service_monitor build_service build_hpa build_pod_disruption_budget
      build_ingress
  objects_of-tags none rule dashboard runbook x y h k l = ground arith
  objects_of-tags (some storage) rule dashboard runbook x y h k l = ground arith

  -- No two of the objects that a claim is built into have the same kind and the same name.
  pub build-AllApart :
      (storage : Option StorageConfig) (os : List Object)
      → build go sc storage ≡ ok os
      → AllApart os
  build-AllApart storage os e =
      let (rule, dashboard, runbook, made, shown, written, same) = build-eq-ok go sc storage os e in
      let listed =
        objects_of-tags storage rule dashboard runbook (concat (sc.name ∷ "-dashboard" ∷ []))
          (runbook_name sc) (rule-tag rule made) (dashboard-tag dashboard shown)
          (runbook-tag runbook written) in
      subst AllApart same (
        all_new-AllApart (objects_of go sc storage rule dashboard runbook) (
          ap all_new listed
          ∙ tags-new (has_storage sc storage) (has_canary_analysis sc) (has_autoscaling sc)
              (sc.spec.tier == tier_public) _ _ (config_names sc)))
