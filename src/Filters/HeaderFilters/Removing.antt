-- ===== src/Filters/HeaderFilters/Removing.antt =====
-- What `remove_headers` of vcrmartin/filters.py leaves of a request.
use vcrpy.Prelude.{
  Bool, List, Option-cases, Str, [], arith, eq_iff, false, if◌then◌else◌, inl, inr, none, ok, refl,
  ◌==◌, ◌||◌, ◌∷◌, ◌≡◌, List_eq, ℕ_eq,
}
use vcrpy.Text.{lower}
use vcrpy.CaseInsensitiveDict
use vcrpy.CaseInsensitiveDict.{CaseInsensitiveDict, set, pop, copy, contains, get}
use vcrpy.CaseInsensitiveDict.Laws.{IsStore, get_same_lower, pop_removes, copy-eq_self}
use vcrpy.CaseInsensitiveDict.Headers.{headers_from-items}
use vcrpy.Request.{Request, HeaderText, set_headers}
use vcrpy.Filters.{Replacement, removals, replaced}
use vcrpy.Filters.HeaderFilters.{replace_header, replace_all, replace_headers, remove_headers}

-- A name of the list is a spelling of the key.
abbrev pub names_key : List Str → Str → Bool
names_key [] key = false
names_key (name ∷ names) key = lower name == lower key || names_key names key

absent_key :
    (name other : Str) (d : CaseInsensitiveDict HeaderText)
    → CaseInsensitiveDict.get name d ≡ none
    → CaseInsensitiveDict.get other d
      ≡ (if lower name == lower other then none else CaseInsensitiveDict.get other d)
absent_key name other d absent =
    ground (arith, eq_iff (lower name) (lower other), get_same_lower name other d)

remove_header :
    (request : Request) (name : Str) (d : CaseInsensitiveDict HeaderText)
    → IsStore d
    → (d' : CaseInsensitiveDict HeaderText) × (replace_header request name Replacement.remove d
        ≡ ok d')
      × IsStore d'
      × ((other : Str)
          → CaseInsensitiveDict.get other d'
            ≡ (if lower name == lower other then none else CaseInsensitiveDict.get other d))
unfolding replace_header contains replaced
remove_header request name d w = elim (Option-cases (CaseInsensitiveDict.get name d)) [
  | inl absent ↦ (d, rw absent, w, λ other. absent_key name other d absent)
  | inr (v, found) ↦
      let (d', popped, w', others) = pop_removes name v d w found in
      (d', rw (found, popped), w', others)
]

remove_all :
    (request : Request) (names : List Str) (d : CaseInsensitiveDict HeaderText)
    → IsStore d
    → (d' : CaseInsensitiveDict HeaderText) × (replace_all request (removals names) d ≡ ok d')
      × IsStore d'
      × ((other : Str)
          → CaseInsensitiveDict.get other d'
            ≡ (if names_key names other then none else CaseInsensitiveDict.get other d))
unfolding replace_all
remove_all request [] d w = (d, refl, w, λ other. refl)
remove_all request (name ∷ names) d w =
    let (d1, step, w1, one) = remove_header request name d w in
    let (d2, rest, w2, others) = remove_all request names d1 w1 in
    (d2, rw (step, rest), w2, λ other. ground (arith, one other, others other))

-- `remove_headers` returns, and leaves the request with all its fields but the headers; a look-up
-- of a header that the list names in any spelling finds nothing, and of any other what it found.
pub remove_headers_removes :
    (request : Request) (names : List Str)
    → IsStore request.headers
    → (headers : CaseInsensitiveDict HeaderText) × (remove_headers request names
        ≡ ok (record request { headers = headers }))
      × IsStore headers
      × ((other : Str)
          → CaseInsensitiveDict.get other headers ≡ (
              if names_key names other
              then none
              else CaseInsensitiveDict.get other request.headers))
unfolding remove_headers replace_headers set_headers
remove_headers_removes request names w =
    let (d, removed, w', others) = remove_all request names request.headers w in
    (d, rw (copy-eq_self request.headers w, removed, headers_from-items d w'), w', others)
