-- ===== src/Cassette.antt =====
-- vcrmartin/cassette.py, `class Cassette`, over a type `Q` of requests and a type `P` of responses.
-- A method returns its result with the new state, or the exception that it raises; no method
-- raises after its first change of the state. Loading and saving are in Cassette/Storage.
pub mod PlayCounts
pub mod Generator
pub mod BestMatches
pub mod Messages
pub mod Appending
pub mod Playback
pub mod Counting
pub mod Order
pub mod Reel
pub mod Refinement
pub mod Reachable
pub mod WriteProtection
pub mod Storage
mod Tests
mod SequenceTests
use vcrpy.Prelude.{
  Bool, List, Option, Result, [], err, false, firsts, if◌then◌else◌, length, map, none, not, ok,
  raised, seconds, some, suc, true, unhandled_http_request, ℕ, ◌&&◌, ◌*◌, ◌++◌, ◌==◌, ◌>>=◌, ◌||◌,
  ◌∷◌, ℕ_eq,
}
use vcrpy.Matching.{Matcher, requests_match}
use vcrpy.RecordMode.{RecordMode, RecordMode_eq, all, once}
use PlayCounts.{Counter, count, increment, total}
use Generator.{Gen, done, throws, yields, gather}

-- What `__init__` stores of its arguments. A callback returns `None` or a value, or it raises.
pub record Settings (Q P : Type 0) : Type 0 where
  pub record_mode : RecordMode
  pub match_on : List (Matcher Q)
  pub before_record_request : Q → Result (Option Q)
  pub before_record_response : P → Result (Option P)
  pub inject : Bool
  pub allow_playback_repeats : Bool
  pub drop_unused_requests : Bool

-- `interactions` is `self.data`.
pub record Cassette (Q P : Type 0) : Type 0 where
  pub settings : Settings Q P
  pub open settings use *
  pub interactions : List (Q × P)
  pub play_counts : Counter
  pub dirty : Bool
  pub rewound : Bool
  pub old_interactions : List (Q × P)
  pub played_interactions : List (Q × P)

-- One round of the loop of `_responses`: `yield index, response` if the requests match.
abbrev pub yield_if : {P : Type 0} → Result Bool → ℕ × P → Gen (ℕ × P) → Gen (ℕ × P)
yield_if (ok true) item rest = yields item rest
yield_if (ok false) item rest = rest
yield_if (err e) item rest = throws e

abbrev pub or_unhandled {ℓ} : {P : Type ℓ} → List P → Result (List P)
or_unhandled [] = err (raised unhandled_http_request)
or_unhandled (p ∷ ps) = ok (p ∷ ps)

module _ {Q P : Type 0} where
  -- `Cassette.__init__`
  abbrev pub new : Settings Q P → Cassette Q P
  new s = record {
    settings = s;
    interactions = [];
    play_counts = [];
    dirty = false;
    rewound = false;
    old_interactions = [];
    played_interactions = [];
  }

  unfoldable pub play_count : Cassette Q P → ℕ
  play_count c = total c.play_counts

  pub all_played : Cassette Q P → Bool
  all_played c = length c.play_counts == length c.interactions

  pub requests : Cassette Q P → List Q
  requests c = firsts c.interactions

  pub responses : Cassette Q P → List P
  responses c = seconds c.interactions

  unfoldable pub write_protected : Cassette Q P → Bool
  write_protected c =
      c.rewound && c.record_mode == RecordMode.once || c.record_mode == RecordMode.none

  -- The two early returns of `append`: a request and a response that the callbacks dropped.
  unfoldable pub append_response : Cassette Q P → Q → Option P → Cassette Q P
  append_response c request none = c
  append_response c request (some response) = record c {
    interactions = c.interactions ++ (request, response) ∷ [];
    dirty = true;
  }

  unfoldable pub append_request : Cassette Q P → Option Q → P → Result (Cassette Q P)
  unfolding append_response
  append_request c none response = ok c
  append_request c (some request) response = do
    response' ← c.before_record_response response
    ok (append_response c request response')

  unfoldable pub append : Cassette Q P → Q → P → Result (Cassette Q P)
  unfolding append_request
  append c request response = do
    request' ← c.before_record_request request
    append_request c request' response

  pub filter_request : Cassette Q P → Q → Result (Option Q)
  filter_request c request = c.before_record_request request

  unfoldable pub matching : List (Matcher Q) → Option Q → ℕ → List (Q × P) → Gen (ℕ × P)
  matching match_on request index [] = done
  matching match_on request index ((stored_request, response) ∷ rest) =
      yield_if (requests_match request stored_request match_on) (index, response)
        (matching match_on request (suc index) rest)

  abbrev pub matching_filtered : Cassette Q P → Result (Option Q) → Gen (ℕ × P)
  matching_filtered c (ok request) = matching c.match_on request 0 c.interactions
  matching_filtered c (err e) = throws e

  -- `_responses`
  unfoldable pub matching_responses : Cassette Q P → Q → Gen (ℕ × P)
  matching_responses c request = matching_filtered c (c.before_record_request request)

  -- self.play_counts[index] == 0 or self.allow_playback_repeats
  abbrev pub is_available : Cassette Q P → ℕ → Bool
  is_available c index = count c.play_counts index == 0 || c.allow_playback_repeats

  unfoldable pub any_available : Cassette Q P → Gen (ℕ × P) → Result Bool
  any_available c done = ok false
  any_available c (throws e) = err e
  any_available c (yields (index, response) rest) =
      if is_available c index then ok true else any_available c rest

  -- `__contains__`
  unfoldable pub contains : Cassette Q P → Q → Result Bool
  unfolding matching_responses any_available
  contains c request = any_available c (matching_responses c request)

  abbrev pub can_play_filtered : Cassette Q P → Option Q → Result Bool
  can_play_filtered c none = ok false
  can_play_filtered c (some request) = do
    found ← contains c request
    ok (found && not (c.record_mode == RecordMode.all) && c.rewound)

  -- The truth of what `can_play_response_for` returns. `contains` filters the filtered request once
  -- more.
  unfoldable pub can_play_response_for : Cassette Q P → Q → Result Bool
  unfolding contains
  can_play_response_for c request = do
    request' ← c.before_record_request request
    can_play_filtered c request'

  pub first_available : Cassette Q P → Gen (ℕ × P) → Result (ℕ × P)
  first_available c done = err (raised unhandled_http_request)
  first_available c (throws e) = err e
  first_available c (yields (index, response) rest) =
      if is_available c index then ok (index, response) else first_available c rest

  pub mark_played : Cassette Q P → ℕ → Q × P → Cassette Q P
  mark_played c index played = record c {
    play_counts = increment index c.play_counts;
    played_interactions = c.played_interactions ++ played ∷ [];
  }

  pub play_response : Cassette Q P → Q → Result (P × Cassette Q P)
  unfolding matching_responses first_available mark_played
  play_response c request = do
    (index, response) ← first_available c (matching_responses c request)
    ok (response, mark_played c index (request, response))

  pub responses_of : Cassette Q P → Q → Result (List P)
  unfolding matching_responses gather
  responses_of c request = do
    found ← gather (matching_responses c request)
    or_unhandled (map (λ (p : ℕ × P). p.1) found)

  pub rewind : Cassette Q P → Cassette Q P
  rewind c = record c { play_counts = [] }
