-- ===== src/Slo/Prometheus/Laws.antt =====
-- What QueryValue gives back.
use paved.Base.{String, false, List, [], ◌∷◌, Result, ok, err, ◌≡◌, ◌↔◌, arith}
use paved.Runtime.{Runtime}
use paved.Slo.Prometheus.{QueryResult, vector, other, value_of, query_value}

module _ (go : Runtime) where
  open go use {Float, is_nan}

  -- A query gives a value exactly if its result is a vector of one sample, which is a number, and then
  -- gives that number; warnings do not matter.
  pub query_value-eq-ok :
      (answer : Result (QueryResult go × List String)) (v : Float)
      → (query_value go answer ≡ ok v) ↔ (
          (warnings : List String) × (answer ≡ ok (vector (v ∷ []), warnings)) × (is_nan v ≡ false))
  unfolding query_value value_of
  query_value-eq-ok (err e) v = (λ p. cc, λ (_, p, _). cc)
  query_value-eq-ok (ok (other type, warnings)) v = (λ p. cc, λ (_, p, _). cc)
  query_value-eq-ok (ok (vector [], warnings)) v = (λ p. cc, λ (_, p, _). cc)
  query_value-eq-ok (ok (vector (x ∷ []), warnings)) v =
      (λ p. (warnings, ground arith, ground arith), λ (_, p, number). ground arith)
  query_value-eq-ok (ok (vector (x ∷ y ∷ vs), warnings)) v = (λ p. cc, λ (_, p, _). cc)
