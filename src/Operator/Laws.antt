-- ===== src/Operator/Laws.antt =====
-- What a manager that starts is like: its cache and its watches, its storage, and its servers.
use paved.Base.{
  String, Bool, true, false, List, [], ◌∷◌, map, Option, none, some, ok, ◌≡◌, ap, ◌∙◌, inl, inr,
  ◌↔◌, arith, All, text_at, Bool-cases, if_of_true, if_of_false, ◌==◌, if◌then◌else◌,
}
use mathlib.Core.Path.{subst}
use paved.Api.{ServiceClaim}
use paved.Runtime.{Runtime}
use paved.Builders.Objects.{Kind, Object, kind_name}
use paved.Builders.Names.{label_managed_by, managed_by}
use paved.Builders.Storage.{StorageConfig, linked, validate}
use paved.Builders.Set.{build}
use paved.Builders.Set.Laws.{IsManaged, build-IsManaged}
use paved.Builders.Set.Kinds.{object_kind}
use paved.Controller.Storage.Settings.{
  storage_config_from_env, env_aws_account_id, env_aws_region, env_aws_oidc_issuer,
  env_aws_permissions_boundary_arn,
}
use paved.Controller.Storage.Laws.{settings, storage_config_from_env-some}
use paved.Controller.Storage.Kinds.{serves_storage_kinds-none}
use paved.Controller.Watch.{setup_with_manager, watched_types}
use paved.Controller.Watch.Kinds.{has_kind, build-watched}
use paved.Operator.{
  Flags, manager_options, CacheOptions, managed_object_cache, TlsConfig, apply_options, tls_options,
  webhook_options, metrics_options,
}
use paved.Operator.Start.{Cluster, Manager, goes_on, storage_for_cluster, set_up}
use paved.Operator.Steps.{set_up-inverse}

-- Whether the manager's cache holds an object: where its kind has a selector, the object's labels must
-- match it.
abbrev pub is_selected : CacheOptions → Object → Bool
is_selected [] o = true
is_selected ((kind, key, value) ∷ rest) o =
    if kind_name kind == kind_name (object_kind o)
    then text_at key o.meta.labels == value
    else is_selected rest o

is_selected-kinds :
    (ks : List Kind) (o : Object)
    → has_kind ks (object_kind o) ≡ true
    → is_selected (map (λ kind. (kind, label_managed_by, managed_by)) ks) o
      ≡ (text_at label_managed_by o.meta.labels == managed_by)
is_selected-kinds [] o h = cc
is_selected-kinds (k ∷ ks) o h = elim (Bool-cases (kind_name k == kind_name (object_kind o))) [
  | inl same ↦ if_of_true _ _ same
  | inr other ↦ if_of_false _ _ other ∙ is_selected-kinds ks o (ground (arith, other, h))
]

abbrev is_labelled : Object → Bool
is_labelled o = text_at label_managed_by o.meta.labels == managed_by

watched-is_selected :
    (storage : Option StorageConfig) (flags : Flags) (o : Object)
    → has_kind (setup_with_manager storage) (object_kind o) ≡ true
    → is_selected (manager_options flags (linked storage)).cache o ≡ is_labelled o
unfolding setup_with_manager manager_options managed_object_cache watched_types
watched-is_selected storage flags o h = is_selected-kinds (setup_with_manager storage) o h

-- Of the kinds that a manager watches, its cache holds exactly the objects that have the platform's
-- label.
pub set_up-is_selected :
    (go : Runtime) (cluster : Cluster) (flags : Flags) (m : Manager) (o : Object)
    → set_up go cluster flags ≡ goes_on m
    → has_kind m.watched (object_kind o) ≡ true
    → is_selected m.options.cache o ≡ (text_at label_managed_by o.meta.labels == managed_by)
set_up-is_selected go cluster flags m o made =
    let (storage, prometheus, _, same) = set_up-inverse go cluster flags m made in
    subst
      (λ (n : Manager).
        has_kind n.watched (object_kind o) ≡ true → is_selected n.options.cache o ≡ is_labelled o)
      same (watched-is_selected storage flags o)

-- The manager sees an object: it watches its kind, and its cache holds it.
abbrev pub IsSeen : Manager → Object → Type 0
IsSeen m o = (has_kind m.watched (object_kind o) ≡ true) × (is_selected m.options.cache o ≡ true)

managed-is_labelled : (sc : ServiceClaim) (o : Object) → IsManaged sc o → is_labelled o ≡ true
managed-is_labelled sc o managed =
    ap (λ x. elim x as (λ _. String) [ none ↦ "" | some v ↦ v ] == managed_by) managed.manager

module _ (go : Runtime) (cluster : Cluster) (flags : Flags) (m : Manager)
    (made : set_up go cluster flags ≡ goes_on m) (sc : ServiceClaim) where
  All-IsSeen :
      (os : List Object)
      → All (IsManaged sc) os
      → All (λ o. has_kind m.watched (object_kind o) ≡ true) os
      → All (IsSeen m) os
  All-IsSeen [] h k = tt
  All-IsSeen (o ∷ os) (managed, h) (watched, k) = (
    (
      watched,
      set_up-is_selected go cluster flags m o made watched ∙ managed-is_labelled sc o managed,
    ),
    All-IsSeen os h k,
  )

  -- Every object that a claim is built into with the manager's storage is of a kind that the manager
  -- watches, and is held by its cache.
  pub set_up-IsSeen :
      (os : List Object) → build go sc m.reconciler.storage ≡ ok os → All (IsSeen m) os
  unfolding setup_with_manager
  set_up-IsSeen os built =
      let (storage, prometheus, _, same) = set_up-inverse go cluster flags m made in
      All-IsSeen os (build-IsManaged go sc m.reconciler.storage os built) (
        subst
          (λ (n : Manager).
            build go sc n.reconciler.storage ≡ ok os
            → All (λ o. has_kind n.watched (object_kind o) ≡ true) os)
          same (build-watched go sc storage os) built)

tls_options-http1 :
    (flags : Flags) (c : TlsConfig)
    → flags.enable_http2 ≡ false
    → (apply_options (tls_options flags) c).next_protos ≡ "http/1.1" ∷ []
tls_options-http1 flags c off = ground (arith, off)

-- The servers do not offer HTTP/2 unless the flag asks for it, whatever their libraries begin with.
pub set_up-http1 :
    (go : Runtime) (cluster : Cluster) (flags : Flags) (m : Manager) (c : TlsConfig)
    → flags.enable_http2 ≡ false
    → set_up go cluster flags ≡ goes_on m
    → ((apply_options m.options.metrics.tls c).next_protos ≡ "http/1.1" ∷ [])
      × ((apply_options m.options.webhook.tls c).next_protos ≡ "http/1.1" ∷ [])
unfolding manager_options webhook_options metrics_options
set_up-http1 go cluster flags m c off made =
    let (storage, prometheus, _, same) = set_up-inverse go cluster flags m made in
    subst
      (λ (n : Manager).
        ((apply_options n.options.metrics.tls c).next_protos ≡ "http/1.1" ∷ [])
        × ((apply_options n.options.webhook.tls c).next_protos ≡ "http/1.1" ∷ []))
      same (tls_options-http1 flags c off, tls_options-http1 flags c off)

served :
    (go : Runtime) (cluster : Cluster) (storage : StorageConfig)
    → (storage_for_cluster go cluster ≡ ok (some storage)) ↔ (
        (storage_config_from_env go cluster.getenv ≡ ok (some storage))
        × (cluster.client_error ≡ none)
        × (cluster.mapping_error Kind.role ≡ none)
        × (cluster.mapping_error Kind.bucket ≡ none))
unfolding storage_for_cluster
served go cluster storage = ground (arith, serves_storage_kinds-none cluster.mapping_error)

-- The storage that a cluster's claims use is its settings, exactly if all four are there and valid, a
-- client can be made, and the API server serves both kinds of ACK objects.
pub storage_for_cluster-some :
    (go : Runtime) (cluster : Cluster) (storage : StorageConfig)
    → (storage_for_cluster go cluster ≡ ok (some storage)) ↔ (
        ¬ (cluster.getenv env_aws_account_id ≡ "")
        × ¬ (cluster.getenv env_aws_region ≡ "")
        × ¬ (cluster.getenv env_aws_oidc_issuer ≡ "")
        × ¬ (cluster.getenv env_aws_permissions_boundary_arn ≡ "")
        × (validate go (settings cluster.getenv) ≡ none)
        × (settings cluster.getenv ≡ storage)
        × (cluster.client_error ≡ none)
        × (cluster.mapping_error Kind.role ≡ none)
        × (cluster.mapping_error Kind.bucket ≡ none))
storage_for_cluster-some go cluster storage =
    let config = storage_config_from_env-some go cluster.getenv storage in
    (
      λ h.
          let (found, client, role, bucket) = (served go cluster storage).0 h in
          let (a, b, c, d, valid, same) = config.0 found in
          (a, b, c, d, valid, same, client, role, bucket),
      λ (a, b, c, d, valid, same, client, role, bucket).
          (served go cluster storage).1 (config.1 (a, b, c, d, valid, same), client, role, bucket),
    )
