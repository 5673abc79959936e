-- ===== src/Lib.antt =====
-- Paved is a Kubernetes operator, with an admission webhook and a small service of its own, shortlink. A
-- ServiceClaim is a team's short description of a service. The reconciler builds the objects of the claim,
-- applies them in order, reads the service's error budget from Prometheus, decides whether deploys are
-- frozen, and writes the claim's status. The webhook reads that status and rejects image changes during a
-- freeze. A claim that is deleted takes its namespace with it. cmd/main.go starts the reconciler and the
-- webhook in one manager. examples/testsvc is a second small service.
--
-- The files, and the code that they model:
--
-- Api, Api/Conditions: api/v1alpha1/serviceclaim_types.go, and the conditions' library, which is a parameter
--   (Meta) with laws (MetaLaws).
-- Base: lists, texts, errors and fractions that the parts share. An error is a value of Error with its causes,
--   so that errors.Is becomes is_not_found and is_no_data; a Go map from texts is an association list.
-- Runtime: what the program takes from Go's runtime and library and is not modelled: float64, quoting,
--   durations, JSON, SHA-256. Runtime/Laws holds the laws of IEEE 754 arithmetic that theorems use.
-- Slo/Budget, Slo/Rules, Slo/Alerts, Slo/Prometheus: internal/slo. Objectives, budgets and thresholds are exact
--   fractions (big.Rat), burn rates are floats. Slo/Budget/Numeral, Digits, Decimal and Spend and
--   Slo/Alerts/Threshold and Total hold proofs, and Slo/Alerts/Window the reading of a window.
-- Builders: internal/builders. Objects has the Kubernetes objects with the fields that the program sets; Names,
--   Storage, Workload, Network, Monitoring, Dashboard and Runbook have the builders, and Set has Build.
-- Controller/Env: what the reconciler talks to. A step takes the history of requests and gives it back with its
--   own in front; the answers are an arbitrary function of the history, so any failure, and any change
--   that another writer makes between two requests, is among them.
-- Controller/Drift, Controller/Status, Controller/Finalize, Controller/Watch, Controller/Reconcile:
--   internal/controller/serviceclaim_controller.go, drift.go and apply.go. Reconcile is `reconcile`; its parts are
--   after_get_claim, reconcile_claim, reconcile_spec, reconcile_objects and report_applied, in the source's order.
-- Controller/Freeze, Controller/SloStatus, Controller/Storage: freeze.go, slo_status.go and storage.go of
--   internal/controller. A `switch` of the source is a decision that gives status, reason and message.
--   Watch has SetupWithManager's list of kinds too, Controller/Storage/Kinds is ServesStorageKinds, and
--   Controller/Storage/Settings is StorageConfigFromEnv.
-- Webhook, Webhook/Text: internal/webhook/v1alpha1/serviceclaim_webhook.go. A Review is the answer and the note
--   of the Event, if one is recorded.
-- Deploys: one claim in the API server, whose status reconciles write and whose spec users change through the
--   webhook, as a step relation.
-- Operator, Operator/Start: cmd/main.go. Operator has the flags and the manager's options, Start the steps of main,
--   each of which may end the program; the libraries' answers are a parameter (Cluster).
-- Services: what the two services share. Mux is net/http's routing for the patterns in use, Metrics the creation of
--   their series, with the metrics' library as a parameter, and Server the function run.
-- Shortlink: services/shortlink/store.go and the handlers of handler.go; Shortlink/Routes is newHandler, and
--   Shortlink/Concurrent the store under concurrent requests, one attempt of add being one step.
-- Testsvc: examples/testsvc/main.go. Its redirects are answered with 301, and its scrapes as the library does.
-- Examples: a runtime, an environment and claims, on which the definitions run.
--
-- Loops over lists are structural. The attempts of the store's add, 5 of them, are counted down. strconv.Itoa
-- has fuel for n + 1 digits of n, and Rat.FloatPrec looks for a number of places below the denominator, which
-- bounds it where there is one. An int64 of nanoseconds wraps around, modulo 2^64.
--
-- Not modelled: log lines; what controller-runtime does with the watches and webhooks that are registered;
-- net/http beyond its routing and its redirects of paths that are not clean, as the segments of a path show
-- them; the tests and their utilities; the generated code; manifests, scripts and Terraform. A reconcile is taken to read the claim as it
-- is stored where Deploys puts several together; a single reconcile reads any claim. The API server's defaulting and
-- validation of a claim is not modelled, so theorems ask for what they need of a claim.
pub mod Base
pub mod Runtime
pub mod Api
pub mod Slo
pub mod Builders
pub mod Controller
pub mod Webhook
pub mod Deploys
pub mod Operator
pub mod Services
pub mod Shortlink
pub mod Testsvc
pub mod Examples
