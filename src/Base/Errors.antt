-- ===== src/Base/Errors.antt =====
-- Go's error values, and results with an error.
use Prim.Native.String.{String}
use mathlib.Core.Path.{◌≡◌, refl}
use mathlib.Core.Logic.{◌⊎◌, inl, inr}
use mathlib.Core.Bool.{Bool, true, false, ◌||◌}
use mathlib.Core.Option.{Option, none, some}
use mathlib.Core.List.{[], ◌∷◌}
use paved.Base.Text.{concat}

-- `plain` is errors.New, or fmt.Errorf with no %w; `wrap` is fmt.Errorf with the text in front of
-- its %w, and `wrap_before` with the text behind it; `joined` is errors.Join of two errors; `no_data`
-- is the sentinel slo.ErrNoData; `api` is an error of the API server, with whether its reason is
-- NotFound.
pub data Error : Type 0 where
  plain : String → Error
  wrap : String → Error → Error
  wrap_before : Error → String → Error
  joined : Error → Error → Error
  no_data : Error
  api : Bool → String → Error

-- err.Error().
unfoldable pub message : Error → String
message (plain s) = s
message (wrap s e) = concat (s ∷ message e ∷ [])
message (wrap_before e s) = concat (message e ∷ s ∷ [])
message (joined e f) = concat (message e ∷ "\n" ∷ message f ∷ [])
message no_data = "no data"
message (api missing s) = s

-- apierrors.IsNotFound, which looks through wrapped errors.
unfoldable pub is_not_found : Error → Bool
is_not_found (plain s) = false
is_not_found (wrap s e) = is_not_found e
is_not_found (wrap_before e s) = is_not_found e
is_not_found (joined e f) = is_not_found e || is_not_found f
is_not_found no_data = false
is_not_found (api missing s) = missing

-- errors.Is(err, slo.ErrNoData).
unfoldable pub is_no_data : Error → Bool
is_no_data (plain s) = false
is_no_data (wrap s e) = is_no_data e
is_no_data (wrap_before e s) = is_no_data e
is_no_data (joined e f) = is_no_data e || is_no_data f
is_no_data no_data = true
is_no_data (api missing s) = false

-- A value or an error: Go's two results, of which one is looked at.
pub data Result {ℓ} (Value : Type ℓ) : Type ℓ where
  err : Error → Result Value
  ok : Value → Result Value

infixl 5 ◌>>=◌
abbrev pub ◌>>=◌ {ℓ κ} :
    {First : Type ℓ} {Second : Type κ} → Result First → (First → Result Second) → Result Second
err cause >>= next = err cause
ok value >>= next = next value

-- Inversion of a successful bind.
pub >>=-eq-ok {ℓ κ} :
    {First : Type ℓ} {Second : Type κ} (step : Result First) (next : First → Result Second)
    {result : Second}
    → (step >>= next) ≡ ok result
    → (value : First) × (step ≡ ok value) × (next value ≡ ok result)
>>=-eq-ok (err cause) next made = cc
>>=-eq-ok (ok value) next made = (value, refl, made)

-- To split on a computed result and keep the equation.
pub Result-cases {ℓ} :
    {A : Type ℓ} (r : Result A) → ((a : A) × (r ≡ ok a)) ⊎ ((e : Error) × (r ≡ err e))
Result-cases (ok a) = inl (a, refl)
Result-cases (err e) = inr (e, refl)

pub ok-injective {ℓ} : {A : Type ℓ} {a b : A} → ok a ≡ ok b → a ≡ b
ok-injective h = cc

-- A value of two steps that do not depend on one another comes from both of them.
pub pair-eq-ok {ℓ κ μ} :
    {A : Type ℓ} {B : Type κ} {C : Type μ} (m : Result A) (n : Result B) (f : A → B → C) {c : C}
    → (m >>= λ x. n >>= λ y. ok (f x y)) ≡ ok c
    → (x : A) × (y : B) × (m ≡ ok x) × (n ≡ ok y) × (f x y ≡ c)
pair-eq-ok (ok x) (ok y) f h = (x, y, refl, refl, ok-injective h)
pair-eq-ok (err e) n f h = cc
pair-eq-ok (ok x) (err e) f h = cc

-- The same for three steps that do not depend on one another.
pub chain-eq-ok {ℓ κ} :
    {A : Type ℓ} {B : Type κ} (m n p : Result A) (f : A → A → A → B) {b : B}
    → (m >>= λ x. n >>= λ y. p >>= λ z. ok (f x y z)) ≡ ok b
    → (x : A) × (y : A) × (z : A) × (m ≡ ok x) × (n ≡ ok y) × (p ≡ ok z) × (f x y z ≡ b)
chain-eq-ok (ok x) (ok y) (ok z) f h = (x, y, z, refl, refl, refl, ok-injective h)
chain-eq-ok (err e) n p f h = cc
chain-eq-ok (ok x) (err e) p f h = cc
chain-eq-ok (ok x) (ok y) (err e) f h = cc

-- errors.Join, where nil is `none`.
abbrev pub join_errors : Option Error → Option Error → Option Error
join_errors none f = f
join_errors (some e) none = some e
join_errors (some e) (some f) = some (joined e f)
