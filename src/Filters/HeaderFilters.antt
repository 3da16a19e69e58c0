-- ===== src/Filters/HeaderFilters.antt =====
-- vcrmartin/filters.py, `replace_headers` and `remove_headers`.
pub mod Removing
use vcrpy.Prelude.{
  List, Option, Result, Str, [], if◌then◌else◌, none, ok, some, ◌>>=◌, ◌∷◌, List_eq, ℕ_eq,
}
use vcrpy.CaseInsensitiveDict
use vcrpy.CaseInsensitiveDict.{CaseInsensitiveDict, set, pop, copy, contains}
use vcrpy.Request.{Request, HeaderText, set_headers}
use vcrpy.Filters.{Replacement, replaced, removals}

abbrev pub set_back :
    Str → Option HeaderText → CaseInsensitiveDict HeaderText → CaseInsensitiveDict HeaderText
set_back key none d = d
set_back key (some v) d = set key v d

-- One round of the loop.
unfoldable pub replace_header :
    Request
    → Str
    → Replacement HeaderText
    → CaseInsensitiveDict HeaderText
    → Result (CaseInsensitiveDict HeaderText)
unfolding replaced contains set
replace_header request key rv d =
    if contains key d
    then (do (old, rest) ← pop key d; new ← replaced rv key old request; ok (set_back key new rest))
    else ok d

unfoldable pub replace_all :
    Request
    → List (Str × Replacement HeaderText)
    → CaseInsensitiveDict HeaderText
    → Result (CaseInsensitiveDict HeaderText)
unfolding replace_header
replace_all request [] d = ok d
replace_all request ((key, rv) ∷ rest) d = do
  d' ← replace_header request key rv d
  replace_all request rest d'

unfoldable pub replace_headers : Request → List (Str × Replacement HeaderText) → Result Request
unfolding replace_all set_headers copy
replace_headers request replacements = do
  new_headers ← replace_all request replacements (copy request.headers)
  set_headers new_headers request

unfoldable pub remove_headers : Request → List Str → Result Request
unfolding replace_headers
remove_headers request names = replace_headers request (removals names)
