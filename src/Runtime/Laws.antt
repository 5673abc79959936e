-- ===== src/Runtime/Laws.antt =====
-- What the theorems use of IEEE 754 arithmetic with rounding to nearest: the order of the numbers,
-- and the sign and the size of differences and quotients.
use paved.Base.{◌<◌, true, false, ◌≡◌, ◌⊎◌, rat, Rat}
use paved.Runtime.{Runtime}

pub record FloatLaws (go : Runtime) : Type 0 where
  -- A comparison with NaN is false; the other floats are totally ordered.
  pub le-nan_left : (x y : go.Float) → go.is_nan x ≡ true → go.le_float x y ≡ false
  pub le-nan_right : (x y : go.Float) → go.is_nan y ≡ true → go.le_float x y ≡ false
  pub le_total :
      (x y : go.Float)
      → go.is_nan x ≡ false
      → go.is_nan y ≡ false
      → (go.le_float x y ≡ true) ⊎ (go.le_float y x ≡ true)
  pub le_trans :
      (x y z : go.Float) → go.le_float x y ≡ true → go.le_float y z ≡ true → go.le_float x z ≡ true
  -- Constants are numbers, in order.
  pub rat-nan : (q : Rat) → 0 < q.den → go.is_nan (go.of_rat q) ≡ false
  pub zero-le-one : go.le_float (go.of_rat (rat 0 1)) (go.of_rat (rat 1 1)) ≡ true
  pub one-le-zero : go.le_float (go.of_rat (rat 1 1)) (go.of_rat (rat 0 1)) ≡ false
  pub gap-le-zero : go.le_float (go.of_rat (rat 5 100)) (go.of_rat (rat 0 1)) ≡ false
  pub zero-inf : go.is_inf (go.of_rat (rat 0 1)) ≡ false
  pub one-inf : go.is_inf (go.of_rat (rat 1 1)) ≡ false
  -- x - y of a finite x is a number unless y is NaN, and is at most 0 exactly when x <= y.
  pub sub-nan :
      (x y : go.Float)
      → go.is_nan x ≡ false
      → go.is_inf x ≡ false
      → go.is_nan y ≡ false
      → go.is_nan (go.sub_float x y) ≡ false
  pub sub-le-zero :
      (x y : go.Float)
      → go.is_nan x ≡ false
      → go.is_inf x ≡ false
      → go.is_nan y ≡ false
      → go.le_float (go.sub_float x y) (go.of_rat (rat 0 1)) ≡ go.le_float x y
  -- x / y of a finite x by a positive y is a number, and is at least 1 exactly when y <= x.
  pub div-nan :
      (x y : go.Float)
      → go.is_nan x ≡ false
      → go.is_inf x ≡ false
      → go.le_float y (go.of_rat (rat 0 1)) ≡ false
      → go.is_nan y ≡ false
      → go.is_nan (go.div_float x y) ≡ false
  pub one-le-div :
      (x y : go.Float)
      → go.is_nan x ≡ false
      → go.is_inf x ≡ false
      → go.le_float y (go.of_rat (rat 0 1)) ≡ false
      → go.is_nan y ≡ false
      → go.le_float (go.of_rat (rat 1 1)) (go.div_float x y) ≡ go.le_float y x
