-- ===== src/Cassette/Messages.antt =====
-- vcrmartin/errors.py, `CannotOverwriteExistingCassetteException`: its message lists the stored
-- requests that come nearest. `repr` and `str` of the values that it shows are parameters.
use vcrpy.Prelude.{
  List, Option, Result, Str, String, [], length, ok, str, ℕ, ◌++◌, ◌+◌, ◌>>=◌, ◌∷◌, List_eq, ℕ_eq,
}
use vcrpy.Matching.{Fail}
use vcrpy.RecordMode.{RecordMode}
use vcrpy.Filters.Responses.{decimal}
use vcrpy.Cassette.BestMatches.{Match, find_requests_with_most_matches}
use vcrpy.Cassette.{Cassette}

pub record Shown (Q : Type 0) : Type 0 where
  pub repr_path : Str → Str
  pub repr_mode : RecordMode → Str
  pub repr_request : Q → Str
  pub show_names : List String → Str
  pub show_message : Option Str → Str

abbrev newline : Str
newline = b'\n' ∷ []

module _ {Q : Type 0} (shown : Shown Q) where
  -- The inner loop, over the failed matchers.
  abbrev failed_lines : List Fail → Str
  failed_lines [] = []
  failed_lines ((failed_matcher, assertion_msg) ∷ rest) =
      str failed_matcher
      ++ str " - assertion failure :"
      ++ newline
      ++ shown.show_message assertion_msg
      ++ newline
      ++ failed_lines rest

  -- The outer loop, from the number `idx` on.
  unfoldable pub match_lines : ℕ → List (Match Q) → Str
  unfolding decimal
  match_lines idx [] = []
  match_lines idx (m ∷ rest) =
      newline
      ++ decimal idx
      ++ str " - ("
      ++ shown.repr_request m.stored_request
      ++ str ")."
      ++ newline
      ++ str "Matchers succeeded : "
      ++ shown.show_names m.successes
      ++ newline
      ++ str "Matchers failed :"
      ++ newline
      ++ failed_lines m.fails
      ++ match_lines (idx + 1) rest

  unfoldable pub best_matches_msg : List (Match Q) → Str
  unfolding match_lines decimal
  best_matches_msg [] = str "No similar requests, that have not been played, found."
  best_matches_msg (m ∷ best_matches) =
      str "Found "
      ++ decimal (length (m ∷ best_matches))
      ++ str " similar requests with "
      ++ decimal (length m.fails)
      ++ str " different matcher(s) :"
      ++ newline
      ++ match_lines 1 (m ∷ best_matches)

  -- `_get_message`, for the cassette at a path.
  unfoldable pub get_message : {P : Type 0} → Str → Cassette Q P → Q → Result Str
  unfolding best_matches_msg find_requests_with_most_matches
  get_message path cassette failed_request = do
    best_matches ← find_requests_with_most_matches cassette failed_request
    ok (
        str "Can't overwrite existing cassette ("
        ++ shown.repr_path path
        ++ str ") in your current record mode ("
        ++ shown.repr_mode cassette.record_mode
        ++ str ")."
        ++ newline
        ++ str "No match for the request ("
        ++ shown.repr_request failed_request
        ++ str ") was found."
        ++ newline
        ++ best_matches_msg best_matches)
