-- ===== src/Request/Tests.antt =====
-- Runs of requests.
use vcrpy.Prelude.{List, [], list_eq, refl, str, ◌∷◌, ◌≡◌, List_eq, ℕ_eq}
use vcrpy.Samples.{small_urllib, get_of}
use vcrpy.Request.Sorting.{Pair, sorted}
use vcrpy.Filters.PostData.{split, partition}
use vcrpy.Request.{query}

abbrev ab : List Pair
ab = (str "a", str "1") ∷ (str "b", str "2") ∷ []

query_sorts : query small_urllib (get_of (str "/p?b=2&a=1")) ≡ ab
unfolding query sorted list_eq split partition
query_sorts = refl
