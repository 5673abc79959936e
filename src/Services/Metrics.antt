-- ===== src/Services/Metrics.antt =====
-- The request metrics of the two services: a counter and a histogram by status code and method, whose
-- series are created before the service serves. The Prometheus client library is a parameter.
use paved.Base.{
  String, Bool, false, ◌&&◌, ◌||◌, List, [], ◌∷◌, Option, none, some, Result, ok, err, wrap, Error,
  concat, ◌==◌, ◌≡◌, ◌>>=◌,
}

-- The labels of a series of both metrics.
pub record Series : Type 0 where
  pub code : String
  pub method : String

pub data Metric : Type 0 where
  request latency : Metric

-- The library: what registering a metric and creating one of its series answer, the method label that promhttp
-- gives to a request's method, and the status code with which its handler answers a scrape.
pub record Library : Type 0 where
  pub register : Metric → Option Error
  pub create : Metric → Series → Option Error
  pub method_label : String → String
  pub scrape_status : String

-- promhttp's documented labels of the two methods that the services are made for.
pub record LibraryLaws (library : Library) : Type 0 where
  pub label_get : library.method_label "GET" ≡ "get"
  pub label_post : library.method_label "POST" ≡ "post"

abbrev pub fail_with : Option Error → String → Result (Unit {0})
fail_with none text = ok tt
fail_with (some e) text = err (wrap text e)

abbrev pub has_series : List Series → Series → Bool
has_series [] s = false
has_series (x ∷ xs) s = x.code == s.code && x.method == s.method || has_series xs s

module _ (library : Library) where
  unfoldable pub register_metrics : Result (Unit {0})
  register_metrics = do
    tt ← fail_with (library.register request) "registering metrics: "
    fail_with (library.register latency) "registering metrics: "

  -- The series of both metrics, in order, with the text that names a series in an error.
  unfoldable pub create_series : (Series → String) → List Series → Result (Unit {0})
  create_series text [] = ok tt
  create_series text (s ∷ rest) =
      let later = create_series text rest in
      fail_with (library.create request s)
        (concat ("creating the " ∷ text s ∷ " request series: " ∷ []))
      >>= λ _.
          fail_with (library.create latency s)
            (concat ("creating the " ∷ text s ∷ " latency series: " ∷ []))
          >>= λ _. later
