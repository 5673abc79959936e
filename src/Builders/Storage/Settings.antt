-- ===== src/Builders/Storage/Settings.antt =====
-- internal/builders/storage.go: StorageConfig and its validation.
use Prim.Native.String
use text.Mathlib.Text.{starts_with}
use paved.Base.{
  ℕ, String, Bool, true, false, not, ◌&&◌, ◌||◌, List, [], ◌∷◌, Option, none, some, plain, Error,
  concat, codes, leb, nat_eq, if◌then◌else◌, ◌==◌,
}
use paved.Api.{ServiceClaim}
use paved.Runtime.{Runtime}

abbrev pub iam_arn_prefix : String
iam_arn_prefix = "arn:aws:iam::"

pub record StorageConfig : Type 0 where
  pub account_id : String
  pub region : String
  pub issuer : String
  pub permissions_boundary_arn : String

-- strings.Trim(s, cutset) == "": every character of the text is in the set.
abbrev all_codes : (ℕ → Bool) → List ℕ → Bool
all_codes p [] = true
all_codes p (c ∷ cs) = p c && all_codes p cs

abbrev is_digit_code : ℕ → Bool
is_digit_code c = leb b'0' c && leb c b'9'

abbrev is_region_code : ℕ → Bool
is_region_code c = leb b'a' c && leb c b'z' || is_digit_code c || nat_eq c b'-'

abbrev found : Option String → Bool
found none = false
found (some s) = true

-- strings.Contains(s, "://") and strings.HasSuffix(s, "/"), over code points.
unfoldable has_scheme : List ℕ → Bool
has_scheme [] = false
has_scheme (c ∷ []) = false
has_scheme (c ∷ d ∷ []) = false
has_scheme (c ∷ d ∷ e ∷ cs) =
    nat_eq c b':' && nat_eq d b'/' && nat_eq e b'/' || has_scheme (d ∷ e ∷ cs)

unfoldable has_trailing_slash : List ℕ → Bool
has_trailing_slash [] = false
has_trailing_slash (c ∷ []) = nat_eq c b'/'
has_trailing_slash (c ∷ d ∷ cs) = has_trailing_slash (d ∷ cs)

module _ (go : Runtime) where
  open go use {quote}

  -- StorageConfig.Validate: the error of the first setting that can't be right.
  unfoldable pub validate : StorageConfig → Option Error
  unfolding has_scheme has_trailing_slash
  validate c =
      if not (nat_eq (String.len c.account_id) 12)
        || not (all_codes is_digit_code (codes c.account_id))
      then some (plain (concat ("AWS account ID " ∷ quote c.account_id ∷ " is not 12 digits" ∷ [])))
      else if c.region == "" || not (all_codes is_region_code (codes c.region))
      then some (plain (concat ("AWS region " ∷ quote c.region ∷ " is not a region name" ∷ [])))
      else if c.issuer == "" || has_scheme (codes c.issuer) || has_trailing_slash (codes c.issuer)
      then some (
          plain (
            concat (
              "OIDC issuer "
              ∷ quote c.issuer
              ∷ " must be a host and optional path, with no scheme or trailing slash"
              ∷ [])))
      else if not (
          starts_with c.permissions_boundary_arn
            (concat (iam_arn_prefix ∷ c.account_id ∷ ":policy/" ∷ [])))
      then some (
          plain (
            concat (
              "permissions boundary "
              ∷ quote c.permissions_boundary_arn
              ∷ " is not a policy ARN in account "
              ∷ c.account_id
              ∷ [])))
      else none

abbrev pub linked : Option StorageConfig → Bool
linked none = false
linked (some c) = true

unfoldable pub has_storage : ServiceClaim → Option StorageConfig → Bool
has_storage sc storage = sc.spec.storage && linked storage
