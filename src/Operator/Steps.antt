-- ===== src/Operator/Steps.antt =====
-- When the operator starts, and what it has then set up.
use paved.Base.{
  String, true, Option, none, some, Result, ok, err, Error, ◌≡◌, refl, ap, ◌∙◌, ◌↔◌, if◌then◌else◌,
}
use paved.Runtime.{Runtime}
use paved.Builders.Storage.{StorageConfig, linked}
use paved.Controller.Watch.{setup_with_manager}
use paved.Slo.Prometheus.{PrometheusClient, new_prometheus_client}
use paved.Operator.{Flags, manager_options}
use paved.Operator.Start.{
  Cluster, Manager, Boot, goes_on, exits, ◌>>=◌, unless_error, of_result, storage_for_cluster,
  set_up, main, add_to_scheme, api_groups, webhooks_enabled,
}

-- A step that went on.
>>=-eq-goes_on {ℓ κ} :
    {First : Type ℓ} {Second : Type κ} (step : Boot First) (next : First → Boot Second)
    {result : Second}
    → (step >>= next) ≡ goes_on result
    → (value : First) × (step ≡ goes_on value) × (next value ≡ goes_on result)
>>=-eq-goes_on (exits text e) next h = cc
>>=-eq-goes_on (goes_on value) next h = (value, refl, h)

unless_error-goes_on :
    (text : String) (e : Option Error) (u : Unit {0}) → unless_error text e ≡ goes_on u → e ≡ none
unless_error-goes_on text none u h = refl
unless_error-goes_on text (some e) u h = cc

of_result-goes_on {ℓ} :
    {Value : Type ℓ} (text : String) (r : Result Value) (value : Value)
    → of_result text r ≡ goes_on value
    → r ≡ ok value
of_result-goes_on text (ok value) other h = cc
of_result-goes_on text (err e) other h = cc

module _ (go : Runtime) (cluster : Cluster) (flags : Flags) where
  -- Every step that main takes goes well, with this storage and this Prometheus client.
  pub record AllGoWell (storage : Option StorageConfig) (prometheus : PrometheusClient)
      : Type 0 where
    pub scheme : add_to_scheme cluster.scheme_error api_groups ≡ none
    pub config : cluster.config_error ≡ none
    pub found : storage_for_cluster go cluster ≡ ok storage
    pub manager : cluster.manager_error (manager_options flags (linked storage)) ≡ none
    pub client :
        new_prometheus_client go
          (cluster.prometheus_error flags.prometheus_url)
          flags.prometheus_url
        ≡ ok prometheus
    pub controller : cluster.controller_error (setup_with_manager storage) ≡ none
    pub webhook : (if webhooks_enabled go cluster then cluster.webhook_error else none) ≡ none
    pub healthz : cluster.healthz_error ≡ none
    pub readyz : cluster.readyz_error ≡ none

  -- The manager that main sets up then.
  abbrev pub manager_of : Option StorageConfig → PrometheusClient → Manager
  manager_of storage prometheus = record {
    options = manager_options flags (linked storage);
    prometheus = prometheus;
    reconciler = record {
      prometheus = true;
      api_reader = true;
      recorder = true;
      storage = storage;
    };
    watched = setup_with_manager storage;
    webhook = webhooks_enabled go cluster;
  }

  pub set_up-inverse :
      (m : Manager)
      → set_up go cluster flags ≡ goes_on m
      → (storage : Option StorageConfig) × (prometheus : PrometheusClient) × AllGoWell storage
          prometheus
        × (manager_of storage prometheus ≡ m)
  unfolding set_up
  set_up-inverse m h =
      let (_, a, h1) =
        >>=-eq-goes_on (unless_error _ (add_to_scheme cluster.scheme_error api_groups)) _ h in
      let (_, b, h2) = >>=-eq-goes_on (unless_error _ cluster.config_error) _ h1 in
      let (storage, c, h3) = >>=-eq-goes_on (of_result _ (storage_for_cluster go cluster)) _ h2 in
      let (_, d, h4) =
        >>=-eq-goes_on
          (unless_error _ (cluster.manager_error (manager_options flags (linked storage)))) _ h3 in
      let (prometheus, e, h5) =
        >>=-eq-goes_on
          (of_result _ (
            new_prometheus_client go (cluster.prometheus_error flags.prometheus_url)
              flags.prometheus_url))
          _ h4 in
      let (_, f, h6) =
        >>=-eq-goes_on (unless_error _ (cluster.controller_error (setup_with_manager storage))) _
          h5 in
      let (_, g, h7) =
        >>=-eq-goes_on
          (unless_error _ (if webhooks_enabled go cluster then cluster.webhook_error else none)) _
          h6 in
      let (_, i, h8) = >>=-eq-goes_on (unless_error _ cluster.healthz_error) _ h7 in
      let (_, j, h9) = >>=-eq-goes_on (unless_error _ cluster.readyz_error) _ h8 in
      (
        storage,
        prometheus,
        record {
          scheme = unless_error-goes_on _ _ _ a;
          config = unless_error-goes_on _ _ _ b;
          found = of_result-goes_on _ _ _ c;
          manager = unless_error-goes_on _ _ _ d;
          client = of_result-goes_on _ _ _ e;
          controller = unless_error-goes_on _ _ _ f;
          webhook = unless_error-goes_on _ _ _ g;
          healthz = unless_error-goes_on _ _ _ i;
          readyz = unless_error-goes_on _ _ _ j;
        },
        cc,
      )

  set_up-of :
      (storage : Option StorageConfig) (prometheus : PrometheusClient)
      → AllGoWell storage prometheus
      → set_up go cluster flags ≡ goes_on (manager_of storage prometheus)
  unfolding set_up storage_for_cluster manager_options setup_with_manager
  set_up-of storage prometheus w =
      rw
        (
          w.scheme, w.config, w.found, w.manager, w.client, w.controller, w.webhook, w.healthz,
          w.readyz, set_up,
        )
        refl

  -- The program runs to its end exactly if each of its steps goes well and the manager ends without an
  -- error; otherwise it exits with one.
  pub main-goes_on : (main go cluster flags ≡ goes_on tt) ↔ (
      (cluster.run_error ≡ none)
      × ((storage : Option StorageConfig) × (prometheus : PrometheusClient) × AllGoWell storage
            prometheus))
  unfolding main
  main-goes_on = (
    λ h.
        let (m, made, ended) = >>=-eq-goes_on (set_up go cluster flags) _ h in
        let (storage, prometheus, well, _) = set_up-inverse m made in
        (unless_error-goes_on _ _ _ ended, (storage, prometheus, well)),
    λ (ended, (storage, prometheus, well)).
        ap (λ x. x >>= λ manager. unless_error "Failed to run manager" cluster.run_error)
          (set_up-of storage prometheus well)
        ∙ ap (unless_error "Failed to run manager") ended,
  )
