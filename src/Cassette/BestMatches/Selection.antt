-- ===== src/Cassette/BestMatches/Selection.antt =====
-- What `find_requests_with_most_matches` of vcrmartin/cassette.py selects.
use vcrpy.Prelude.{
  List, Option, [], arith, if◌then◌else◌, ltb, ok, refl, ℕ, ◌<◌, ◌∙◌, ◌∷◌, ◌≡◌, ◌≤◌, ℕ_eq,
}
use vcrpy.Cassette.{Cassette, requests}
use vcrpy.Cassette.BestMatches.{
  Match, insert, sort, take_best, best_of, compare_all, find_requests_with_most_matches,
}
use vcrpy.Cassette.BestMatches.Sorting.{
  AtMost, IsDescending, sort-IsDescending, at_level, at_level-sort,
}

module _ {Q : Type 0} where
  -- The greatest number of successes in the list.
  unfoldable pub most : List (Match Q) → ℕ
  most [] = 0
  most (m ∷ ms) = if ltb (most ms) m.nb_success then m.nb_success else most ms

  most-le : (n : ℕ) (ms : List (Match Q)) → AtMost n ms → most ms ≤ n
  unfolding most
  most-le n [] a = omega arith
  most-le n (m ∷ ms) a = ground (arith, most-le n ms a.1)

  most-insert : (m : Match Q) (ms : List (Match Q)) → most (insert m ms) ≡ most (m ∷ ms)
  unfolding most insert
  most-insert m [] = refl
  most-insert m (k ∷ ms) = ground (arith, most-insert m ms)

  most-sort : (ms : List (Match Q)) → most (sort ms) ≡ most ms
  unfolding sort most
  most-sort [] = refl
  most-sort (m ∷ ms) = most-insert m (sort ms) ∙ (ground (arith, most-sort ms))

  at_level_above : (n k : ℕ) (ms : List (Match Q)) → AtMost k ms → k < n → at_level n ms ≡ []
  at_level_above n k [] a h = refl
  at_level_above n k (m ∷ ms) a h = ground (arith, at_level_above n k ms a.1 h)

  take_best-eq-at_level :
      (n : ℕ) (ms : List (Match Q))
      → 0 < n
      → IsDescending ms
      → AtMost n ms
      → take_best n ms ≡ at_level n ms
  unfolding take_best
  take_best-eq-at_level n [] h d a = refl
  take_best-eq-at_level n (m ∷ ms) h d a =
      ground (arith, at_level_above n m.nb_success ms d.0, take_best-eq-at_level m.nb_success ms)

  -- What is best of all: those with the greatest number, if that is not 0.
  abbrev pub best : List (Match Q) → List (Match Q)
  best ms = if ltb 0 (most ms) then at_level (most ms) ms else []

  best_of-descending : (ms : List (Match Q)) → IsDescending ms → best_of ms ≡ best ms
  unfolding most take_best
  best_of-descending [] d = refl
  best_of-descending (m ∷ ms) d =
      ground (arith, most-le m.nb_success ms d.0, take_best-eq-at_level m.nb_success ms)

  pub best_of-sort : (ms : List (Match Q)) → best_of (sort ms) ≡ best ms
  best_of-sort ms =
      best_of-descending (sort ms) (sort-IsDescending ms)
      ∙ rw (most-sort ms, at_level-sort (most ms) ms)

module _ {Q P : Type 0} where
  -- When the comparisons raise nothing, the result is exactly the stored requests whose number of
  -- successes is the greatest of all, in the order of the cassette, and it is empty if that number
  -- is 0 or nothing is stored.
  pub find_requests_selects_best :
      (c : Cassette Q P) (request : Q) {request' : Option Q} {all : List (Match Q)}
      → c.before_record_request request ≡ ok request'
      → compare_all c.match_on request' (requests c) ≡ ok all
      → find_requests_with_most_matches c request ≡ ok (best all)
  unfolding find_requests_with_most_matches requests
  find_requests_selects_best c request {all = all} e1 e2 = rw (e1, e2, best_of-sort all)
