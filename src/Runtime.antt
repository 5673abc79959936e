-- ===== src/Runtime.antt =====
-- What the program takes from Go's runtime and standard library whose algorithms are not modelled:
-- float64 with its conversions, the quoting of a text (%q, whose tables of printable characters are
-- Unicode's), time.ParseDuration, the encoding of JSON, and SHA-256.
pub mod Laws
use paved.Base.{
  ℕ, String, Bool, true, false, ◌&&◌, Option, Rat, ℤ, Result, Json, if◌then◌else◌, not,
}

pub record Runtime : Type 1 where
  pub Float : Type 0
  -- The float64 nearest to a fraction: a constant of the program, and Rat.Float64.
  pub of_rat : Rat → Float
  pub is_nan : Float → Bool
  pub is_inf : Float → Bool
  -- x <= y, false if either is NaN.
  pub le_float : Float → Float → Bool
  pub sub_float : Float → Float → Float
  pub mul_float : Float → Float → Float
  pub div_float : Float → Float → Float
  -- math.Round.
  pub round : Float → Float
  -- strconv.FormatFloat(x, 'f', digits, 64), and with -1 digits.
  pub format_float : Float → ℕ → String
  pub format_shortest : Float → String
  -- %v and %g.
  pub format_general : Float → String
  -- strconv.ParseFloat(s, 64), `none` on an error.
  pub parse_float : String → Option Float
  -- %q.
  pub quote : String → String
  -- time.ParseDuration, in nanoseconds, and a Duration's Hours and Seconds.
  pub parse_duration : String → Result ℤ
  pub hours : ℤ → Float
  pub seconds : ℤ → Float
  -- json.Marshal, and json.MarshalIndent with two spaces, of what the program encodes.
  pub marshal : Json → String
  pub marshal_indent : Json → String
  -- The hexadecimal digits of a text's SHA-256.
  pub sha256_hex : String → String

module _ (go : Runtime) where
  open go use {Float, is_nan, le_float}

  -- x < y.
  unfoldable pub lt_float : Float → Float → Bool
  lt_float x y = le_float x y && not (le_float y x)

  -- The builtin max and min: NaN if an operand is NaN.
  unfoldable pub max_float : Float → Float → Float
  max_float x y = if is_nan x then x else if is_nan y then y else if le_float x y then y else x

  unfoldable pub min_float : Float → Float → Float
  min_float x y = if is_nan x then x else if is_nan y then y else if le_float x y then x else y
