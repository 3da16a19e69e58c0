-- ===== src/Filters/Queries/Removing.antt =====
-- What `remove_query_parameters` of vcrmartin/filters.py leaves of a request.
use vcrpy.Prelude.{All, List, Str, [], arith, false, keep, not, ok, refl, ◌∷◌, ◌≡◌, List_eq, ℕ_eq}
use vcrpy.Dict
use vcrpy.Dict.{Dict, get}
use vcrpy.Request.Sorting.{Pair, sorted, insert_pair}
use vcrpy.Request.{Request, Parts, Urllib, query, set_uri}
use vcrpy.Filters.{removals, dict_of, replaced}
use vcrpy.Filters.Removals.{is_named, get-dict_of-removals}
use vcrpy.Filters.Queries.{replace_parameters, remove_query_parameters, replace_query_parameters}

-- The parameters of a query that the list does not name.
abbrev pub unnamed : List Str → List Pair → List Pair
unnamed names = keep (λ (p : Pair). not (is_named names p.0))

remove_parameters :
    (request : Request) (names : List Str) (l : List Pair)
    → replace_parameters request (dict_of (removals names) []) l ≡ ok (unnamed names l)
unfolding replace_parameters replaced Dict.get
remove_parameters request names [] = refl
remove_parameters request names ((key, old) ∷ l) =
    ground (arith, get-dict_of-removals {V = Str} names key [], remove_parameters request names l)

abbrev pub AllUnnamed : List Str → List Pair → Type 0
AllUnnamed names = All (λ (p : Pair). is_named names p.0 ≡ false)

unnamed-AllUnnamed : (names : List Str) (l : List Pair) → AllUnnamed names (unnamed names l)
unnamed-AllUnnamed names [] = tt
unnamed-AllUnnamed names ((key, v) ∷ l) = ground (arith, unnamed-AllUnnamed names l)

AllUnnamed-insert_pair :
    (names : List Str) (p : Pair) (l : List Pair)
    → is_named names p.0 ≡ false
    → AllUnnamed names l
    → AllUnnamed names (insert_pair p l)
unfolding insert_pair
AllUnnamed-insert_pair names p [] h w = (h, tt)
AllUnnamed-insert_pair names p (q ∷ l) h w = ground (arith, AllUnnamed-insert_pair names p l)

AllUnnamed-sorted :
    (names : List Str) (l : List Pair) → AllUnnamed names l → AllUnnamed names (sorted l)
unfolding sorted
AllUnnamed-sorted names [] w = tt
AllUnnamed-sorted names (p ∷ l) w =
    AllUnnamed-insert_pair names p (sorted l) w.0 (AllUnnamed-sorted names l w.1)

-- What the calls of `urllib.parse` have to do: the address that is put together again is parsed, and
-- its query holds the parameters that were encoded.
pub record IsReparsed (urllib : Urllib) (request : Request) (kept : List Pair)
    (parts parts' : Parts) : Type 0 where
  pub parsed : urllib.urlparse request.uri ≡ ok parts
  pub reparsed :
      urllib.urlparse (urllib.urlunparse (record parts { query = urllib.urlencode kept }))
      ≡ ok parts'
  pub decoded : urllib.parse_qsl parts'.query ≡ kept

-- Where `urllib.parse` reads the new address back as it was written: `remove_query_parameters` gives
-- the request the address that `urlunparse` makes of the old parts and of those parameters of
-- `request.query`, which are parsed and sorted, that the list does not name. Nothing else but the
-- parsed address changes; the new query is those parameters, and none of them is named.
pub remove_query_parameters_removes :
    (urllib : Urllib) (request : Request) (names : List Str) (parts parts' : Parts)
    → IsReparsed urllib request (unnamed names (query urllib request)) parts parts'
    → (r : Request) × (remove_query_parameters urllib request names ≡ ok r)
      × (r ≡ record request {
        uri =
            urllib.urlunparse
              (record parts { query = urllib.urlencode (unnamed names (query urllib request)) });
        parsed_uri = parts';
      })
      × (query urllib r ≡ sorted (unnamed names (query urllib request)))
      × AllUnnamed names (query urllib r)
unfolding remove_query_parameters replace_query_parameters set_uri query
remove_query_parameters_removes urllib request names parts parts' w =
    let kept = unnamed names (query urllib request) in
    let left = AllUnnamed-sorted names kept (unnamed-AllUnnamed names (query urllib request)) in
    (
      record request {
        uri = urllib.urlunparse (record parts { query = urllib.urlencode kept });
        parsed_uri = parts';
      },
      rw (remove_parameters request names (query urllib request), w.parsed, w.reparsed),
      refl,
      rw w.decoded,
      rw w.decoded left,
    )
