-- ===== src/Shortlink.antt =====
-- services/shortlink: store.go, and the handlers of handler.go. Random bytes come as the results of
-- crypto/rand, one for each attempt; a locked section of the store is one step.
pub mod Laws
pub mod Routes
pub mod Concurrent
use Prim.Native.String
use paved.Base.{
  ℕ, zero, suc, ◌+◌, ◌%◌, String, Bool, true, false, not, ◌&&◌, ◌||◌, List, [], ◌∷◌, map, Option,
  none, some, Result, ok, err, plain, wrap, Error, concat, lookup, insert, if◌then◌else◌, ◌==◌,
}

abbrev pub Links : Type 0
Links = List (String × String)

abbrev pub code_alphabet : String
code_alphabet = "abcdefghijkmnopqrstuvwxyzABCDEFGHJKLMNPQRSTUVWXYZ23456789"

abbrev pub code_length : ℕ
code_length = 7

abbrev pub code_attempts : ℕ
code_attempts = 5

-- codeAlphabet[int(b)%len(codeAlphabet)], as a text of one character.
unfoldable pub code_character : ℕ → String
code_character b = let i = b % String.len code_alphabet in String.slice code_alphabet i (i + 1)

-- randomCode, from the bytes that were read or the error.
unfoldable pub random_code : Result (List ℕ) → Result String
unfolding code_character
random_code (ok buf) = ok (concat (map code_character buf))
random_code (err e) = err (wrap "reading random bytes: " e)

-- The locked section of add: the store with the code, unless it is taken.
unfoldable pub try_add : Links → String → String → Option Links
try_add links code target = elim (lookup code links) [
  | none ↦ some (insert code target links)
  | some other ↦ none
]

-- The loop of add: the attempts left, and the results of reading random bytes, by attempt.
unfoldable pub add_from : ℕ → (ℕ → Result (List ℕ)) → String → Links → Result String × Links
unfolding try_add
add_from zero random target links = (err (plain "no unused code found"), links)
add_from (suc attempts) random target links =
    let again = add_from attempts random target links in
    elim (random_code (random attempts)) [
      | err e ↦ (err e, links)
      | ok code ↦ elim (try_add links code target) [
        | none ↦ again
        | some links' ↦ (ok code, links')
      ]
    ]

unfoldable pub add : (ℕ → Result (List ℕ)) → String → Links → Result String × Links
unfolding add_from
add random target links = add_from code_attempts random target links

unfoldable pub get : String → Links → Option String
get code links = lookup code links

-- url.URL: what the handler reads of it.
pub record Url : Type 0 where
  pub scheme : String
  pub host : String
  pub text : String

pub data Response : Type 0 where
  created : String → String → Response
  found : String → Response
  bad_request : String → Response
  not_found : Response
  server_error : Response

abbrev pub created_or_failed : Url → Result String × Links → Response × Links
created_or_failed target (ok code, links) = (created code target.text, links)
created_or_failed target (err e, links) = (server_error, links)

-- createLink: the decoded body, and url.Parse.
unfoldable pub create_link :
    (String → Result Url) → (ℕ → Result (List ℕ)) → Result String → Links → Response × Links
create_link parse random (err e) links =
    (bad_request "the body must be JSON like {\"url\": \"https://example.com\"}", links)
create_link parse random (ok body) links = elim (parse body) [
  | err e ↦ (bad_request "url must be an absolute http or https URL", links)
  | ok target ↦
      if not (target.scheme == "http") && not (target.scheme == "https") || target.host == ""
      then (bad_request "url must be an absolute http or https URL", links)
      else created_or_failed target (add random target.text links)
]

unfoldable pub follow_link : String → Links → Response
follow_link code links = elim (get code links) [ none ↦ not_found | some target ↦ found target ]
