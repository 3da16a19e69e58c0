-- ===== src/Matching.antt =====
-- vcrmartin/matchers.py, the evaluation of matchers: `_evaluate_matcher`, `get_matchers_results`
-- and `requests_match`. The type `Q` of requests is a parameter, as Python leaves it open (a
-- cassette also holds `MongoRequest`s). The first request is an option: the caller passes what
-- `before_record_request` returned, which may be `None`.
pub mod Laws
use vcrpy.Prelude.{
  Bool, List, Option, Result, Str, String, [], assertion_error, err, false, none, ok, raised, some,
  true, ◌>>=◌, ◌∷◌,
}

-- A matcher function with its `__name__`. It returns `None` or a value that is true or false, or
-- it raises.
pub record Matcher (Q : Type 0) : Type 0 where
  pub name : String
  pub run : Option Q → Q → Result (Option Bool)

abbrev pub Fail : Type 0
Fail = String × Option Str

-- What the `try` of `_evaluate_matcher` makes of the call's outcome.
unfoldable pub evaluate_outcome : Result (Option Bool) → Result (Bool × Option Str)
evaluate_outcome (ok none) = ok (true, none)
evaluate_outcome (ok (some match)) = ok (match, none)
evaluate_outcome (err (assertion_error message)) = ok (false, some message)
evaluate_outcome (err (raised e)) = err (raised e)

-- One round of the loop: the name goes to the successes or to the failures.
abbrev pub file_under :
    String → Bool × Option Str → List String × List Fail → List String × List Fail
file_under name (true, message) (successes, fails) = (name ∷ successes, fails)
file_under name (false, message) (successes, fails) = (successes, (name, message) ∷ fails)

abbrev pub no_failures : List String × List Fail → Bool
no_failures (successes, []) = true
no_failures (successes, _ ∷ _) = false

module _ {Q : Type 0} where
  unfoldable pub evaluate_matcher : Matcher Q → Option Q → Q → Result (Bool × Option Str)
  unfolding evaluate_outcome
  evaluate_matcher m r1 r2 = evaluate_outcome (m.run r1 r2)

  -- The loop runs the matchers in their order, and the first exception but `AssertionError` ends it.
  unfoldable pub get_matchers_results :
      Option Q → Q → List (Matcher Q) → Result (List String × List Fail)
  get_matchers_results r1 r2 [] = ok ([], [])
  get_matchers_results r1 r2 (m ∷ rest) = do
    outcome ← evaluate_matcher m r1 r2
    results ← get_matchers_results r1 r2 rest
    ok (file_under m.name outcome results)

  unfoldable pub requests_match : Option Q → Q → List (Matcher Q) → Result Bool
  unfolding get_matchers_results evaluate_matcher
  requests_match r1 r2 matchers = do
    results ← get_matchers_results r1 r2 matchers
    ok (no_failures results)
