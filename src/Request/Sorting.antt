-- ===== src/Request/Sorting.antt =====
-- `sorted` on the pairs of texts of a query, as `query` of vcrmartin/request.py uses it.
pub mod Laws
use vcrpy.Prelude.{
  Bool, List, Str, [], false, if◌then◌else◌, ltb, nat_eq, true, ◌&&◌, ◌==◌, ◌||◌, ◌∷◌, List_eq,
  ℕ_eq,
}

abbrev pub Pair : Type 0
Pair = Str × Str

-- a <= b, on texts and on pairs of texts.
unfoldable pub text_le : Str → Str → Bool
text_le [] b = true
text_le (x ∷ a) [] = false
text_le (x ∷ a) (y ∷ b) = ltb x y || nat_eq x y && text_le a b

unfoldable pub pair_le : Pair → Pair → Bool
unfolding text_le
pair_le (a, b) (c, d) = if a == c then text_le b d else text_le a c

unfoldable pub insert_pair : Pair → List Pair → List Pair
unfolding pair_le
insert_pair p [] = p ∷ []
insert_pair p (q ∷ qs) = if pair_le p q then p ∷ q ∷ qs else q ∷ insert_pair p qs

unfoldable pub sorted : List Pair → List Pair
unfolding insert_pair
sorted [] = []
sorted (p ∷ ps) = insert_pair p (sorted ps)
