-- ===== src/Operator/Answers.antt =====
-- When the operator runs to its end, by what its environment and the libraries answer.
use paved.Base.{
  String, true, Option, none, some, ok, err, Error, wrap, ◌≡◌, refl, sym, ap, ◌∙◌, ◌↔◌, ◌⊎◌, inl,
  inr, arith, Option-cases, Result-cases, Bool-cases, eq_iff, if◌then◌else◌,
}
use paved.Runtime.{Runtime}
use paved.Builders.Objects.{Kind}
use paved.Builders.Storage.{StorageConfig, linked, validate}
use paved.Controller.Storage.Settings.{
  storage_config_from_env, env_aws_account_id, env_aws_region, env_aws_oidc_issuer,
  env_aws_permissions_boundary_arn,
}
use paved.Controller.Storage.Laws.{
  settings, storage_config_from_env-none, storage_config_from_env-some,
}
use paved.Controller.Storage.Kinds.{serves_storage_kinds, served_kinds}
use paved.Controller.Watch.{setup_with_manager}
use paved.Slo.Prometheus.{PrometheusClient, new_client, new_prometheus_client}
use paved.Operator.{Flags, manager_options}
use paved.Operator.Start.{
  Cluster, goes_on, clientgo, platform, rollouts, monitoring, add_to_scheme, api_groups,
  storage_for_cluster, webhooks_enabled, main,
}
use paved.Operator.Laws.{storage_for_cluster-some}
use paved.Operator.Steps.{main-goes_on}

module _ (go : Runtime) (cluster : Cluster) where
  open cluster use {getenv, mapping_error, is_no_match}

  abbrev pub HasSettings : Type 0
  HasSettings =
      ¬ (getenv env_aws_account_id ≡ "")
      × ¬ (getenv env_aws_region ≡ "")
      × ¬ (getenv env_aws_oidc_issuer ≡ "")
      × ¬ (getenv env_aws_permissions_boundary_arn ≡ "")
      × (validate go (settings getenv) ≡ none)

  abbrev pub HasNoSettings : Type 0
  HasNoSettings =
      (getenv env_aws_account_id ≡ "")
      × (getenv env_aws_region ≡ "")
      × (getenv env_aws_oidc_issuer ≡ "")
      × (getenv env_aws_permissions_boundary_arn ≡ "")

  -- Asking for the first of the two kinds that the API server does not serve gives this error.
  abbrev pub IsUnserved : Error → Type 0
  IsUnserved e =
      ((f : Error) × (mapping_error Kind.role ≡ some f)
        × (e ≡ wrap "the API server doesn't serve iam.services.k8s.aws/v1alpha1, Kind=Role: " f))
      ⊎ ((f : Error) × (mapping_error Kind.role ≡ none)
          × (mapping_error Kind.bucket ≡ some f)
          × (e ≡ wrap "the API server doesn't serve s3.services.k8s.aws/v1alpha1, Kind=Bucket: " f))

  -- Which storage the claims get: the settings', if both kinds are served; and none, if nothing is set, or if
  -- a kind has no match in the API server.
  abbrev pub IsStorage : Option StorageConfig → Type 0
  IsStorage (some storage) =
      HasSettings
      × (settings getenv ≡ storage)
      × (cluster.client_error ≡ none)
      × (mapping_error Kind.role ≡ none)
      × (mapping_error Kind.bucket ≡ none)
  IsStorage none =
      HasNoSettings
      ⊎ (HasSettings
          × (cluster.client_error ≡ none)
          × ((e : Error) × IsUnserved e × (is_no_match e ≡ true)))

  serves_storage_kinds-some :
      (e : Error) → (serves_storage_kinds mapping_error ≡ some e) ↔ IsUnserved e
  unfolding serves_storage_kinds served_kinds
  serves_storage_kinds-some e = elim (Option-cases (mapping_error Kind.role)) [
    | inr (f, refused) ↦
        let shown : serves_storage_kinds mapping_error
            ≡ some
                (wrap "the API server doesn't serve iam.services.k8s.aws/v1alpha1, Kind=Role: " f) =
          rw (refused, served_kinds) refl in
        (
          λ h. inl (f, refused, let same = sym shown ∙ h in cc),
          λ d. elim d [
            | inl (g, again, same) ↦ let twice = sym refused ∙ again in cc
            | inr (g, served, _, _) ↦ absurd (let no_way = sym refused ∙ served in cc)
          ],
        )
    | inl served ↦ elim (Option-cases (mapping_error Kind.bucket)) [
      | inr (f, refused) ↦
          let shown : serves_storage_kinds mapping_error
              ≡ some (
                  wrap "the API server doesn't serve s3.services.k8s.aws/v1alpha1, Kind=Bucket: "
                    f) =
            rw (served, refused, served_kinds) refl in
          (
            λ h. inr (f, served, refused, let same = sym shown ∙ h in cc),
            λ d. elim d [
              | inl (g, again, _) ↦ absurd (let no_way = sym served ∙ again in cc)
              | inr (g, _, again, same) ↦ let twice = sym refused ∙ again in cc
            ],
          )
      | inl all ↦
          let shown : serves_storage_kinds mapping_error ≡ none =
            rw (served, all, served_kinds) refl in
          (
            λ h. absurd (let no_way = sym shown ∙ h in cc),
            λ d. absurd (elim d [
              | inl (g, again, _) ↦ let no_way = sym served ∙ again in cc
              | inr (g, _, again, _) ↦ let no_way = sym all ∙ again in cc
            ]),
          )
    ]
  ]

  linked_by :
      ¬ (getenv env_aws_account_id ≡ "")
      → ¬ (getenv env_aws_region ≡ "")
      → ¬ (getenv env_aws_oidc_issuer ≡ "")
      → ¬ (getenv env_aws_permissions_boundary_arn ≡ "")
      → validate go (settings getenv) ≡ none
      → storage_config_from_env go getenv ≡ ok (some (settings getenv))
  linked_by a b c d v =
      (storage_config_from_env-some go getenv (settings getenv)).1 (a, b, c, d, v, refl)

  -- The settings are there.
  none_with_settings :
      (storage : StorageConfig)
      → storage_config_from_env go getenv ≡ ok (some storage)
      → (storage_for_cluster go cluster ≡ ok none) ↔ IsStorage none
  unfolding storage_for_cluster
  none_with_settings storage set = elim (Option-cases cluster.client_error) [
    | inr (e, failed) ↦ (
      λ h. absurd (let no_way = rw (set, failed, storage_for_cluster) at h in cc),
      λ d. absurd (elim d [
        | inl blank ↦ not_blank blank
        | inr (_, fine, _) ↦ let no_way = sym failed ∙ fine in cc
      ]),
    )
    | inl fine ↦ elim (Option-cases (serves_storage_kinds mapping_error)) [
      | inl all ↦ (
        λ h. absurd (let no_way = rw (set, fine, all, storage_for_cluster) at h in cc),
        λ d. absurd (elim d [
          | inl blank ↦ not_blank blank
          | inr (_, _, (e, unserved, _)) ↦
              let no_way = sym all ∙ (serves_storage_kinds-some e).1 unserved in cc
        ]),
      )
      | inr (e, refused) ↦ elim (Bool-cases (is_no_match e)) [
        | inl missing ↦ (
          λ h. inr (has_settings, fine, (e, (serves_storage_kinds-some e).0 refused, missing)),
          λ d. rw (set, fine, refused, missing, storage_for_cluster) refl,
        )
        | inr other ↦ (
          λ h. absurd (let no_way = rw (set, fine, refused, other, storage_for_cluster) at h in cc),
          λ d. absurd (elim d [
            | inl blank ↦ not_blank blank
            | inr (_, _, (f, unserved, missing)) ↦
                let same = sym refused ∙ (serves_storage_kinds-some f).1 unserved in
                let no_way = sym missing in cc
          ]),
        )
      ]
    ]
  ]
    where
      not_blank : HasNoSettings → ⊥
      not_blank blank =
          let no_way = sym set ∙ (storage_config_from_env-none go getenv).1 blank in cc

      has_settings : HasSettings
      has_settings =
          let (a, b, c, d, v, _) = (storage_config_from_env-some go getenv storage).0 set in
          (a, b, c, d, v)

  storage_for_cluster-none : (storage_for_cluster go cluster ≡ ok none) ↔ IsStorage none
  unfolding storage_for_cluster
  storage_for_cluster-none = elim (Result-cases (storage_config_from_env go getenv)) [
    | inr (e, invalid) ↦ (
      λ h. absurd (let no_way : err e ≡ ok none = rw (invalid, storage_for_cluster) at h in cc),
      λ d. absurd (elim d [
        | inl blank ↦
            let no_way = sym invalid ∙ (storage_config_from_env-none go getenv).1 blank in cc
        | inr ((a, b, c, d, v), _, _) ↦ let no_way = sym invalid ∙ linked_by a b c d v in cc
      ]),
    )
    | inl (none, blank) ↦ (
      λ _. inl ((storage_config_from_env-none go getenv).0 blank),
      λ _. rw (blank, storage_for_cluster) refl,
    )
    | inl (some storage, set) ↦ none_with_settings storage set
  ]

  storage_for_cluster-ok :
      (storage : Option StorageConfig)
      → (storage_for_cluster go cluster ≡ ok storage) ↔ IsStorage storage
  storage_for_cluster-ok none = storage_for_cluster-none
  storage_for_cluster-ok (some storage) =
      let same = storage_for_cluster-some go cluster storage in
      (
        λ h. let (a, b, c, d, v, s, x, y, z) = same.0 h in ((a, b, c, d, v), s, x, y, z),
        λ ((a, b, c, d, v), s, x, y, z). same.1 (a, b, c, d, v, s, x, y, z),
      )

  abbrev pub IsRegistered : Type 0
  IsRegistered =
      (cluster.scheme_error clientgo ≡ none)
      × (cluster.scheme_error platform ≡ none)
      × (cluster.scheme_error rollouts ≡ none)
      × (cluster.scheme_error monitoring ≡ none)

  add_to_scheme-none : (add_to_scheme cluster.scheme_error api_groups ≡ none) ↔ IsRegistered
  unfolding add_to_scheme
  add_to_scheme-none = ground arith

  new_prometheus_client-ok :
      (e : Option Error) (address : String) (c : PrometheusClient)
      → (new_prometheus_client go e address ≡ ok c)
        ↔ ((e ≡ none) × (record { address = address; timeout = 5 } ≡ c))
  unfolding new_prometheus_client new_client
  new_prometheus_client-ok none address c = (λ h. (refl, cc), λ (_, same). ap ok same)
  new_prometheus_client-ok (some e) address c = (λ h. cc, λ (h, _). absurd cc)

  webhook-none :
      ((if webhooks_enabled go cluster then cluster.webhook_error else none) ≡ none)
      ↔ ((getenv "ENABLE_WEBHOOKS" ≡ "false") ⊎ (cluster.webhook_error ≡ none))
  webhook-none = ground (arith, eq_iff (getenv "ENABLE_WEBHOOKS") "false")

  module _ (flags : Flags) where
    -- What has to be there, and to answer without an error, with this storage.
    pub record AnswersWell (storage : Option StorageConfig) : Type 0 where
      pub registered : IsRegistered
      pub config : cluster.config_error ≡ none
      pub found : IsStorage storage
      pub manager : cluster.manager_error (manager_options flags (linked storage)) ≡ none
      pub prometheus : cluster.prometheus_error flags.prometheus_url ≡ none
      pub controller : cluster.controller_error (setup_with_manager storage) ≡ none
      pub webhook : (getenv "ENABLE_WEBHOOKS" ≡ "false") ⊎ (cluster.webhook_error ≡ none)
      pub healthz : cluster.healthz_error ≡ none
      pub readyz : cluster.readyz_error ≡ none
      pub ended : cluster.run_error ≡ none

    -- The program runs to its end exactly if, for some storage that the settings and the API server lead to, no
    -- library that it asks answers with an error: the schemes, the configuration, the clients, the manager
    -- with its options, the controller, the webhook where it is on, the checks, and the manager's run.
    pub main-goes_on_iff :
        (main go cluster flags ≡ goes_on tt)
        ↔ ((storage : Option StorageConfig) × AnswersWell storage)
    main-goes_on_iff = (
      λ h.
          let (ended, (storage, prometheus, w)) = (main-goes_on go cluster flags).0 h in
          (
            storage,
            record {
              registered = add_to_scheme-none.0 w.scheme;
              config = w.config;
              found = (storage_for_cluster-ok storage).0 w.found;
              manager = w.manager;
              prometheus = ((new_prometheus_client-ok _ _ prometheus).0 w.client).0;
              controller = w.controller;
              webhook = webhook-none.0 w.webhook;
              healthz = w.healthz;
              readyz = w.readyz;
              ended = ended;
            },
          ),
      λ (storage, a).
          let client : PrometheusClient = record { address = flags.prometheus_url; timeout = 5 } in
          (main-goes_on go cluster flags).1 (
            a.ended,
            (
              storage,
              client,
              record {
                scheme = add_to_scheme-none.1 a.registered;
                config = a.config;
                found = (storage_for_cluster-ok storage).1 a.found;
                manager = a.manager;
                client = (new_prometheus_client-ok _ _ client).1 (a.prometheus, refl);
                controller = a.controller;
                webhook = webhook-none.1 a.webhook;
                healthz = a.healthz;
                readyz = a.readyz;
              },
            ),
          ),
    )
