-- ===== src/Slo/Prometheus.antt =====
-- internal/slo/prometheus.go: reading one number from the result of an instant query. The server's
-- answer, and the timeout that ends a query, are the client library's.
pub mod Laws
use paved.Base.{
  ℕ, String, List, [], ◌∷◌, Option, none, some, Result, ok, err, plain, wrap, wrap_before, no_data,
  Error, concat, join, length, itoa, if◌then◌else◌,
}
use paved.Runtime.{Runtime}

-- 5 seconds.
abbrev query_timeout : ℕ
query_timeout = 5

-- PrometheusClient: the address of the API's client, and the timeout of the client and of a query.
pub record PrometheusClient : Type 0 where
  pub address : String
  pub timeout : ℕ

module _ (go : Runtime) where
  open go use {Float, is_nan, quote}

  -- newPrometheusClient, with the error of the API library's client.
  unfoldable pub new_client : Option Error → String → ℕ → Result PrometheusClient
  new_client (some e) address timeout =
      err (wrap (concat ("creating Prometheus client for " ∷ quote address ∷ ": " ∷ [])) e)
  new_client none address timeout = ok (record { address = address; timeout = timeout })

  unfoldable pub new_prometheus_client : Option Error → String → Result PrometheusClient
  unfolding new_client
  new_prometheus_client answer address = new_client answer address query_timeout

  -- model.Value: a vector, by the values of its samples, or another type of result, by its name.
  pub data QueryResult : Type 0 where
    vector : List Float → QueryResult
    other : String → QueryResult

  no_data_warned : List String → Error
  no_data_warned [] = no_data
  no_data_warned (w ∷ ws) =
      wrap_before no_data (concat (" (Prometheus warned: [" ∷ join " " (w ∷ ws) ∷ "])" ∷ []))

  unfoldable pub value_of : QueryResult → List String → Result Float
  unfolding no_data_warned itoa
  value_of (other type) warnings =
      err (plain (concat ("query returned a " ∷ type ∷ ", want a vector" ∷ [])))
  value_of (vector []) warnings = err (no_data_warned warnings)
  value_of (vector (v ∷ [])) warnings = if is_nan v then err no_data else ok v
  value_of (vector (v ∷ w ∷ vs)) warnings =
      err (plain (concat ("query returned " ∷ itoa (length (v ∷ w ∷ vs)) ∷ " series, want 1" ∷ [])))

  -- What QueryValue makes of the answer, or the error, of the API's Query.
  unfoldable pub query_value : Result (QueryResult × List String) → Result Float
  unfolding value_of
  query_value (err e) = err (wrap "querying Prometheus: " e)
  query_value (ok (result, warnings)) = value_of result warnings
