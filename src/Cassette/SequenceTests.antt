-- ===== src/Cassette/SequenceTests.antt =====
-- Sequences of calls on small cassettes of vcrmartin/cassette.py, and the theorems about sequences at
-- them. Requests and responses are numbers; the callback adds 1 to a request.
use vcrpy.Prelude.{
  Bool-cases, List, [], false, inl, inr, ok, option_eq, raised, refl, some, true,
  unhandled_http_request, ℕ, ◌+◌, ◌==◌, ◌∷◌, ◌≡◌, ◌≤◌, ℕ_eq,
}
use vcrpy.Matching.{Matcher, requests_match}
use vcrpy.RecordMode.{RecordMode}
use vcrpy.Cassette.PlayCounts.{count, increment}
use vcrpy.Cassette.Storage.{Persister, load, finish_load, load_all}
use vcrpy.Cassette.Counting.{IsConsistent, new-IsConsistent}
use vcrpy.Cassette.Reel.{
  Operation, plays, appends, rewinds, IsTotal, returned, played, failed, reel_of, reel_run,
}
use vcrpy.Cassette.Refinement.{calls, calls_refine_reel}
use vcrpy.Cassette.Reachable.{Reachable, loads, Reachable-IsConsistent, play_count_bounded}
use vcrpy.Cassette.{
  Cassette, Settings, new, append, matching, matching_responses, play_count, play_response,
}

abbrev equal : Matcher ℕ
equal = record { name = "equal"; run = λ r q. ok (some (option_eq r (some q))) }

abbrev settings : Settings ℕ ℕ
settings = record {
  record_mode = RecordMode.new_episodes;
  match_on = equal ∷ [];
  before_record_request = λ q. ok (some (q + 1));
  before_record_response = λ p. ok (some p);
  inject = false;
  allow_playback_repeats = false;
  drop_unused_requests = false;
}

compared : (q q' : ℕ) → requests_match (some q) q' settings.match_on ≡ ok (q == q')
unfolding requests_match option_eq
compared q q' = elim (Bool-cases (q == q')) [ inl h ↦ rw h refl | inr h ↦ rw h refl ]

total : IsTotal settings
total = record {
  f = λ q. q + 1;
  g = λ p. p;
  matches = λ q q'. q == q';
  filters = λ q. refl;
  answers = λ p. refl;
  compares = compared;
}

abbrev script : List (Operation ℕ ℕ)
script = appends 1 10 ∷ appends 1 11 ∷ plays 1 ∷ plays 1 ∷ plays 1 ∷ rewinds ∷ plays 1 ∷ []

calls_refine_reel_example :
    calls script (new settings) ≡ reel_run total script (reel_of (new settings))
calls_refine_reel_example =
    calls_refine_reel total refl (new settings) script refl (new-IsConsistent settings)

replies :
    reel_run total script (reel_of (new settings))
    ≡ returned
      ∷ returned
      ∷ played 10
      ∷ played 11
      ∷ failed (raised unhandled_http_request)
      ∷ returned
      ∷ played 10
      ∷ []
unfolding total
replies = refl

-- A storage of two recorded interactions.
abbrev disk : Persister ℕ ℕ ℕ
disk = record {
  load_cassette = λ _. ok (1 ∷ 2 ∷ [], 7 ∷ 8 ∷ []);
  save_cassette = λ w _. ok (w + 1);
}

abbrev one_played : Cassette ℕ ℕ
one_played = record (new settings) {
  interactions = (2, 7) ∷ (3, 8) ∷ [];
  old_interactions = (1, 7) ∷ (2, 8) ∷ [];
  rewound = true;
  play_counts = (0, 1) ∷ [];
  played_interactions = (1, 7) ∷ [];
}

reached : Reachable disk settings one_played
unfolding load append play_response requests_match matching matching_responses count increment
    load_all finish_load option_eq
reached = Reachable.plays 1 7 (loads 0 refl) refl

Reachable-IsConsistent_example : IsConsistent one_played
Reachable-IsConsistent_example = Reachable-IsConsistent disk settings reached

play_count_bounded_example : play_count one_played ≤ 2
play_count_bounded_example = play_count_bounded disk settings reached refl
