-- ===== src/Cassette/BestMatches.antt =====
-- vcrmartin/cassette.py, `find_requests_with_most_matches`: the stored requests that pass the most
-- matchers for a request that was not found.
pub mod Sorting
pub mod Selection
use vcrpy.Prelude.{
  List, Option, Result, String, [], false, firsts, if◌then◌else◌, length, ltb, not, ok, true, ℕ,
  ◌==◌, ◌>>=◌, ◌||◌, ◌∷◌, ℕ_eq,
}
use vcrpy.Matching.{Matcher, Fail, get_matchers_results}
use vcrpy.Cassette.{Cassette}

-- `(len(successes), stored_request, successes, fails)`
pub record Match (Q : Type 0) : Type 0 where
  pub nb_success : ℕ
  pub stored_request : Q
  pub successes : List String
  pub fails : List Fail

module _ {Q : Type 0} where
  -- `list.sort(key=lambda t: t[0], reverse=True)`: stable, the greatest key first.
  unfoldable pub insert : Match Q → List (Match Q) → List (Match Q)
  insert m [] = m ∷ []
  insert m (n ∷ ns) = if ltb m.nb_success n.nb_success then n ∷ insert m ns else m ∷ n ∷ ns

  unfoldable pub sort : List (Match Q) → List (Match Q)
  unfolding insert
  sort [] = []
  sort (m ∷ ms) = insert m (sort ms)

  -- The first loop.
  unfoldable pub compare_all : List (Matcher Q) → Option Q → List Q → Result (List (Match Q))
  compare_all match_on request [] = ok []
  compare_all match_on request (stored_request ∷ rest) = do
    (successes, fails) ← get_matchers_results request stored_request match_on
    others ← compare_all match_on request rest
    ok (
        record {
          nb_success = length successes;
          stored_request = stored_request;
          successes = successes;
          fails = fails;
        }
        ∷ others)

  -- The second loop, which breaks at a match with another number of successes or with none.
  unfoldable pub take_best : ℕ → List (Match Q) → List (Match Q)
  take_best previous_nb_success [] = []
  take_best previous_nb_success (m ∷ ms) =
      elim (ltb m.nb_success 1 || not (previous_nb_success == m.nb_success)) [
        | true ↦ []
        | false ↦ m ∷ take_best m.nb_success ms
      ]

  abbrev pub best_of : List (Match Q) → List (Match Q)
  best_of [] = []
  best_of (m ∷ ms) = take_best m.nb_success (m ∷ ms)

module _ {Q P : Type 0} where
  unfoldable pub find_requests_with_most_matches : Cassette Q P → Q → Result (List (Match Q))
  unfolding sort take_best compare_all
  find_requests_with_most_matches c request = do
    request' ← c.before_record_request request
    best_matches ← compare_all c.match_on request' (firsts c.interactions)
    ok (best_of (sort best_matches))
