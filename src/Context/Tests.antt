-- ===== src/Context/Tests.antt =====
-- The theorems about `with` at concrete cassettes. Requests and responses are numbers, and the
-- storage either keeps what it is given or refuses it.
use vcrpy.Prelude.{
  Bool, List, Result, Str, [], cassette_not_found, err, false, none, ok, raised, refl, some, str,
  true, type_error, ℕ, ◌∷◌, ◌≡◌,
}
use vcrpy.RecordMode.{RecordMode}
use vcrpy.Cassette.{Cassette, new}
use vcrpy.Cassette.Storage.{Persister, load}
use vcrpy.Context.{Arguments, Context, enter, save_own, handle_function}
use vcrpy.Context.Leaving.{entered, handle_function_restores, failed_save_leaks}

abbrev Disk : Type 0
Disk = List ℕ × List ℕ

abbrev keeps : Str → Persister ℕ ℕ Disk
keeps path = record {
  load_cassette = λ _. err (raised cassette_not_found);
  save_cassette = λ _ d. ok d;
}

abbrev refuses : Str → Persister ℕ ℕ Disk
refuses path = record {
  load_cassette = λ _. err (raised cassette_not_found);
  save_cassette = λ _ _. err (raised type_error);
}

abbrev arguments : Arguments ℕ ℕ
arguments = record {
  settings = record {
    record_mode = RecordMode.once;
    match_on = [];
    before_record_request = λ q. ok (some q);
    before_record_response = λ p. ok (some p);
    inject = false;
    allow_playback_repeats = false;
    drop_unused_requests = false;
  };
  path = str "tape";
  path_transformer = none;
}

abbrev before : Context ℕ ℕ Disk
before = record { cassettes = []; current = none; world = ([], []) }

abbrev opened : Cassette ℕ ℕ
opened = new arguments.settings

-- The cassette after the function has recorded an interaction.
abbrev recorded : Cassette ℕ ℕ
recorded = record opened { interactions = (1, 2) ∷ []; dirty = true }

abbrev inside : Context ℕ ℕ Disk
inside = record { cassettes = (str "tape", opened) ∷ []; current = some 0; world = ([], []) }

-- A function that records, and leaves another value in `current_cassette`.
abbrev records : ℕ → Context ℕ ℕ Disk → Result Bool × Context ℕ ℕ Disk
records place s = (ok true, record s { cassettes = (str "tape", recorded) ∷ []; current = some 7 })

abbrev after : Context ℕ ℕ Disk
after = record {
  cassettes = (str "tape", record recorded { dirty = false }) ∷ [];
  current = some 7;
  world = (1 ∷ [], 2 ∷ []);
}

handle_function_restores_example :
    ((handle_function keeps arguments (ok true) records before).0 ≡ ok true)
    × ((handle_function keeps arguments (ok true) records before).1.current ≡ none)
handle_function_restores_example =
    handle_function_restores keeps arguments (ok true) records before inside after 0
      (entered 0 before) true refl (unfold enter load in refl) (unfold save_own in refl)

failed_save_leaks_example : handle_function refuses arguments (ok true) records before ≡ (
  err (raised type_error),
  record before { cassettes = (str "tape", recorded) ∷ []; current = some 7 },
)
failed_save_leaks_example =
    failed_save_leaks refuses arguments (ok true) records before inside (records 0 inside).1 0
      (entered 0 before) true (raised type_error) refl refl (unfold enter load in refl)
      (unfold save_own in refl)
