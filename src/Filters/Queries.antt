-- ===== src/Filters/Queries.antt =====
-- vcrmartin/filters.py, `replace_query_parameters` and `remove_query_parameters`.
pub mod Removing
use vcrpy.Prelude.{List, Option, Result, Str, [], none, ok, some, ◌>>=◌, ◌∷◌, List_eq, ℕ_eq}
use vcrpy.Dict
use vcrpy.Dict.{Dict, get}
use vcrpy.Request.Sorting.{Pair}
use vcrpy.Request.{Request, Urllib, query, set_uri}
use vcrpy.Filters.{Replacement, replaced, removals, dict_of}

abbrev pub replaced_parameter : Request → Option (Replacement Str) → Str → Str → Result (Option Str)
replaced_parameter request none key old = ok (some old)
replaced_parameter request (some rv) key old = replaced rv key old request

abbrev pub put_first : Str → Option Str → List Pair → List Pair
put_first key none rest = rest
put_first key (some v) rest = (key, v) ∷ rest

-- The loop over the query.
unfoldable pub replace_parameters :
    Request → Dict Str (Replacement Str) → List Pair → Result (List Pair)
unfolding replaced
replace_parameters request replacements [] = ok []
replace_parameters request replacements ((key, old) ∷ rest) = do
  new ← replaced_parameter request (Dict.get key replacements) key old
  others ← replace_parameters request replacements rest
  ok (put_first key new others)

module _ (urllib : Urllib) where
  unfoldable pub replace_query_parameters : Request → List (Str × Replacement Str) → Result Request
  unfolding replace_parameters dict_of
  replace_query_parameters request replacements = do
    new_query ← replace_parameters request (dict_of replacements []) (query urllib request)
    parts ← urllib.urlparse request.uri
    set_uri urllib (urllib.urlunparse (record parts { query = urllib.urlencode new_query })) request

  unfoldable pub remove_query_parameters : Request → List Str → Result Request
  unfolding replace_query_parameters
  remove_query_parameters request names = replace_query_parameters request (removals names)
