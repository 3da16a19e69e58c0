-- ===== src/Cassette/Tests.antt =====
-- Runs of vcrmartin/cassette.py on small cassettes, and the theorems about it at concrete inputs.
-- Requests are texts, compared by the matcher `same`; responses are numbers.
use vcrpy.Prelude.{
  Bool, List, Option, Result, String, [], arith, assertion_error, attribute_error,
  cassette_not_found, err, false, firsts, if◌then◌else◌, map, nat_eq, none, ok, raised, refl,
  seconds, some, true, unhandled_http_request, ℕ, ◌==◌, ◌↔◌, ◌∷◌, ◌≡◌, ◌≢◌, String_eq,
}
use vcrpy.Matching.{Matcher, evaluate_matcher, get_matchers_results, requests_match}
use vcrpy.Cassette.Playback.{
  Outcome, contains_iff_plays, can_play_then_plays, play_response_plays_first,
}
use vcrpy.RecordMode.{RecordMode}
use vcrpy.Cassette.PlayCounts.{count, increment, count-nil}
use vcrpy.Cassette.{
  Cassette, Settings, new, play_response, can_play_response_for, contains, requests, responses_of,
  rewind, matching,
}
use vcrpy.Cassette.Counting.{IsConsistent, play_response-IsConsistent}
use vcrpy.Cassette.Order.{PlaysThrough, rewound_plays_responses_of}
use vcrpy.Cassette.BestMatches.{Match, find_requests_with_most_matches, compare_all}
use vcrpy.Cassette.BestMatches.Selection.{best, find_requests_selects_best}
use vcrpy.Cassette.Storage.{Persister, load, save}
use vcrpy.Cassette.Storage.Loading.{keep_pairs, loaded_from, load_recorded, keep_pair}
use vcrpy.Cassette.Storage.Saving.{Session, play, playback_never_writes, save_then_load, start}

-- What `same` returns for the option of a request and a stored request.
abbrev compare_texts : Option String → String → Result (Option Bool)
compare_texts none stored = err (raised attribute_error)
compare_texts (some request) stored =
    if request == stored then ok none else err (assertion_error [])

abbrev same : Matcher String
same = record { name = "same"; run = compare_texts }

-- A matcher that accepts everything, by a true value.
abbrev anything : Matcher String
anything = record { name = "anything"; run = λ _ _. ok (some true) }

-- The request "secret" and the response 0 are dropped.
abbrev settings : Settings String ℕ
settings = record {
  record_mode = RecordMode.once;
  match_on = anything ∷ same ∷ [];
  before_record_request = λ q. ok (if q == "secret" then none else some q);
  before_record_response = λ p. ok (if nat_eq p 0 then none else some p);
  inject = false;
  allow_playback_repeats = false;
  drop_unused_requests = false;
}

abbrev recorded : List (String × ℕ)
recorded = ("a", 1) ∷ ("b", 2) ∷ ("a", 3) ∷ []

abbrev tape : Cassette String ℕ
tape = record (new settings) {
  interactions = recorded;
  old_interactions = recorded;
  rewound = true;
}

-- The first "a" has been played.
abbrev tape_played : Cassette String ℕ
tape_played = record tape { play_counts = (0, 1) ∷ []; played_interactions = ("a", 1) ∷ [] }

-- A storage that holds the last dictionary saved.
abbrev Disk : Type 0
Disk = Option (List String × List ℕ)

abbrev read : Disk → Result (List String × List ℕ)
read none = err (raised cassette_not_found)
read (some d) = ok d

abbrev disk : Persister String ℕ Disk
disk = record { load_cassette = read; save_cassette = λ _ d. ok (some d) }

play_a : play_response tape "a" ≡ ok (1, tape_played)
unfolding play_response requests_match increment count matching
play_a = refl

play_unknown : play_response tape "c" ≡ err (raised unhandled_http_request)
unfolding play_response requests_match increment count matching
play_unknown = refl

best_of_c :
    find_requests_with_most_matches tape "c"
    ≡ ok (
        map
          (λ q. record {
            nb_success = 1;
            stored_request = q;
            successes = "anything" ∷ [];
            fails = ("same", some []) ∷ [];
          })
          ("a" ∷ "b" ∷ "a" ∷ []))
unfolding find_requests_with_most_matches evaluate_matcher get_matchers_results
best_of_c = refl

matches_a : requests_match (some "a") "a" settings.match_on ≡ ok true
unfolding requests_match
matches_a = refl

play_response_plays_first_example :
    (play_response tape "a" ≡ ok (1, tape_played)) ↔ Outcome tape "a" (some "a") 1 tape_played
play_response_plays_first_example = play_response_plays_first tape "a" 1 tape_played refl

contains_iff_plays_example :
    (contains tape "a" ≡ ok true)
    ↔ ((p : ℕ) × (c' : Cassette String ℕ) × (play_response tape "a" ≡ ok (p, c')))
contains_iff_plays_example = contains_iff_plays tape "a"

can_play_a : can_play_response_for tape "a" ≡ ok true
unfolding can_play_response_for requests_match count matching
can_play_a = refl

can_play_then_plays_example :
    ((p : ℕ) × (c' : Cassette String ℕ) × (play_response tape "a" ≡ ok (p, c')))
    × (tape.rewound ≡ true)
    × (tape.record_mode ≢ RecordMode.all)
can_play_then_plays_example = can_play_then_plays tape "a" refl refl can_play_a

tape-IsConsistent : IsConsistent tape
tape-IsConsistent = record { keys = tt; once = λ _ i. omega (arith, count-nil i) }

play_response-IsConsistent_example : IsConsistent tape_played
play_response-IsConsistent_example = play_response-IsConsistent tape "a" tape-IsConsistent play_a

responses_of_a : responses_of tape "a" ≡ ok (1 ∷ 3 ∷ [])
unfolding responses_of requests_match matching
responses_of_a = refl

rewound_plays_responses_of_example : PlaysThrough (rewind tape) "a" (1 ∷ 3 ∷ [])
rewound_plays_responses_of_example =
    rewound_plays_responses_of tape "a" (1 ∷ 3 ∷ []) refl responses_of_a

abbrev compared_all : List (Match String)
compared_all =
    record {
      nb_success = 1;
      stored_request = "a";
      successes = "anything" ∷ [];
      fails = ("same", some []) ∷ [];
    }
    ∷ record {
      nb_success = 2;
      stored_request = "b";
      successes = "anything" ∷ "same" ∷ [];
      fails = [];
    }
    ∷ record {
      nb_success = 1;
      stored_request = "a";
      successes = "anything" ∷ [];
      fails = ("same", some []) ∷ [];
    }
    ∷ []

compared : compare_all settings.match_on (some "b") (requests tape) ≡ ok compared_all
unfolding compare_all requests requests_match
compared = refl

find_requests_selects_best_example :
    find_requests_with_most_matches tape "b" ≡ ok (best compared_all)
find_requests_selects_best_example = find_requests_selects_best tape "b" refl compared

abbrev stored : Disk
stored = some (firsts recorded, seconds recorded)

load_recorded_example :
    load disk settings stored ≡ ok (loaded_from disk settings stored recorded recorded)
unfolding keep_pairs keep_pair
load_recorded_example =
    load_recorded disk settings stored (firsts recorded) (seconds recorded) recorded refl refl

session : Session tape tape_played
session = play "a" 1 start play_a

playback_never_writes_example :
    (load disk settings stored ≡ ok tape)
    × (save disk tape_played stored false ≡ ok (tape_played, stored))
unfolding keep_pairs keep_pair
playback_never_writes_example =
    playback_never_writes disk settings stored (firsts recorded) (seconds recorded) recorded refl
      refl refl session

abbrev fresh : Cassette String ℕ
fresh = record (new settings) { interactions = recorded; dirty = true }

save_then_load_example :
    (save disk fresh none false ≡ ok (record fresh { dirty = false }, stored))
    × (load disk settings stored ≡ ok (loaded_from disk settings stored recorded recorded))
unfolding keep_pairs keep_pair
save_then_load_example = save_then_load disk fresh none stored refl refl refl refl refl
