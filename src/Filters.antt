-- ===== src/Filters.antt =====
-- vcrmartin/filters.py: what a replacement is, for headers, query parameters and fields of a body.
pub mod Removals
pub mod HeaderFilters
pub mod Queries
pub mod PostData
pub mod Responses
pub mod Keeping
mod Tests
use vcrpy.Prelude.{List, Option, Result, Str, [], map, none, ok, some, ◌>>=◌, ◌∷◌, List_eq, ℕ_eq}
use vcrpy.Dict
use vcrpy.Dict.{Dict, get, erase, insert}
use vcrpy.Request.{Request, Headers}

-- `None`, a value, or a function of the key, the value and the request, which returns a value or
-- `None`, or raises.
pub data Replacement (V : Type 0) : Type 0 where
  remove : Replacement V
  value : V → Replacement V
  call : (Str → V → Request → Result (Option V)) → Replacement V

module _ {V : Type 0} where
  -- if callable(rv): rv = rv(key=k, value=ov, request=request)
  unfoldable pub replaced : Replacement V → Str → V → Request → Result (Option V)
  replaced remove key old request = ok none
  replaced (value v) key old request = ok (some v)
  replaced (call f) key old request = f key old request

  -- [(k, None) for k in names]
  abbrev pub removals : List Str → List (Str × Replacement V)
  removals = map (λ k. (k, remove))

  -- dict(replacements): the last of equal keys counts.
  unfoldable pub dict_of :
      List (Str × Replacement V) → Dict Str (Replacement V) → Dict Str (Replacement V)
  dict_of [] d = d
  dict_of ((k, rv) ∷ rest) d = dict_of rest (Dict.insert k rv d)

  -- The body of the loops over a dictionary: `pop`, and `d[k] = rv` unless the replacement is `None`.
  abbrev pub put_back : Str → Option V → Dict Str V → Dict Str V
  put_back key none d = d
  put_back key (some v) d = Dict.insert key v d

  abbrev pub replace_found :
      Request → Str → Replacement V → Option V → Dict Str V → Result (Dict Str V)
  replace_found request key rv none d = ok d
  replace_found request key rv (some old) d = do
    new ← replaced rv key old request
    ok (put_back key new (Dict.erase key d))

  unfoldable pub replace_fields :
      Request → Dict Str (Replacement V) → Dict Str V → Result (Dict Str V)
  unfolding replaced
  replace_fields request [] d = ok d
  replace_fields request ((key, rv) ∷ rest) d = do
    d' ← replace_found request key rv (Dict.get key d) d
    replace_fields request rest d'
