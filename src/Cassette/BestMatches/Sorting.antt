-- ===== src/Cassette/BestMatches/Sorting.antt =====
-- The sort by the number of successes in vcrmartin/cassette.py is stable and descending.
use vcrpy.Prelude.{All, List, [], arith, keep, refl, ℕ, ◌==◌, ◌∙◌, ◌∷◌, ◌≡◌, ◌≤◌, ℕ_eq}
use vcrpy.Cassette.BestMatches.{Match, insert, sort}

module _ {Q : Type 0} where
  -- No match of the list has more than `n` successes.
  abbrev pub AtMost : ℕ → List (Match Q) → Type 0
  AtMost n = All (λ (m : Match Q). m.nb_success ≤ n)

  -- The number of successes never rises along the list.
  abbrev pub IsDescending : List (Match Q) → Type 0
  IsDescending [] = Unit
  IsDescending (m ∷ ms) = AtMost m.nb_success ms × IsDescending ms

  pub AtMost-mono : (n k : ℕ) (ms : List (Match Q)) → n ≤ k → AtMost n ms → AtMost k ms
  AtMost-mono n k [] h a = tt
  AtMost-mono n k (m ∷ ms) h a = (omega arith, AtMost-mono n k ms h a.1)

  pub AtMost-insert :
      (n : ℕ) (m : Match Q) (ms : List (Match Q))
      → m.nb_success ≤ n
      → AtMost n ms
      → AtMost n (insert m ms)
  unfolding insert
  AtMost-insert n m [] h a = (h, tt)
  AtMost-insert n m (k ∷ ms) h a = ground (arith, AtMost-insert n m ms h a.1)

  insert-IsDescending :
      (m : Match Q) (ms : List (Match Q)) → IsDescending ms → IsDescending (insert m ms)
  unfolding insert
  insert-IsDescending m [] d = (tt, tt)
  insert-IsDescending m (k ∷ ms) d = ground (
    arith,
    insert-IsDescending m ms d.1,
    AtMost-insert k.nb_success m ms,
    AtMost-mono k.nb_success m.nb_success ms,
  )

  pub sort-IsDescending : (ms : List (Match Q)) → IsDescending (sort ms)
  unfolding sort
  sort-IsDescending [] = tt
  sort-IsDescending (m ∷ ms) = insert-IsDescending m (sort ms) (sort-IsDescending ms)

  -- The matches with exactly `n` successes, in their order.
  abbrev pub at_level : ℕ → List (Match Q) → List (Match Q)
  at_level n = keep (λ (m : Match Q). m.nb_success == n)

  at_level-insert :
      (n : ℕ) (m : Match Q) (ms : List (Match Q)) → at_level n (insert m ms) ≡ at_level n (m ∷ ms)
  unfolding insert
  at_level-insert n m [] = refl
  at_level-insert n m (k ∷ ms) = ground (arith, at_level-insert n m ms)

  -- Stability: matches with equal keys keep their order.
  pub at_level-sort : (n : ℕ) (ms : List (Match Q)) → at_level n (sort ms) ≡ at_level n ms
  unfolding sort
  at_level-sort n [] = refl
  at_level-sort n (m ∷ ms) = at_level-insert n m (sort ms) ∙ (ground (arith, at_level-sort n ms))
