-- ===== src/CaseInsensitiveDict/Tests.antt =====
-- Runs of the dictionaries of headers, and the theorems about them at concrete ones.
use vcrpy.Prelude.{
  List, Str, [], if◌then◌else◌, is_some, list_eq, ok, refl, some, str, ℕ, ◌++◌, ◌==◌, ◌∷◌, ◌≡◌,
  List_eq, ℕ_eq,
}
use vcrpy.Text.{lower}
use vcrpy.Dict
use vcrpy.CaseInsensitiveDict
use vcrpy.CaseInsensitiveDict.{CaseInsensitiveDict, from_pairs, set, pop, copy, keys, get}
use vcrpy.CaseInsensitiveDict.Laws.{from_pairs-IsStore}
use vcrpy.CaseInsensitiveDict.Headers.{set_header, set_header_keeps_spelling, several}

abbrev accept_pairs : List (Str × ℕ)
accept_pairs = (str "Accept", 1) ∷ (str "Host", 2) ∷ []

abbrev accept : CaseInsensitiveDict ℕ
accept = from_pairs accept_pairs

keys_set_twice : keys (set (str "ACCEPT") 3 accept) ≡ str "ACCEPT" ∷ str "Host" ∷ []
unfolding keys set from_pairs lower Dict.insert list_eq
keys_set_twice = refl

set_header_keeps_spelling_example :
    (d' : CaseInsensitiveDict ℕ) × (set_header (str "ACCEPT") (several (7 ∷ 8 ∷ [])) accept ≡ ok d')
    × (keys d' ≡ (
        if is_some (CaseInsensitiveDict.get (str "ACCEPT") accept)
        then keys accept
        else keys accept ++ str "ACCEPT" ∷ []))
    × (CaseInsensitiveDict.get (str "accept") d' ≡ (
        if lower (str "ACCEPT") == lower (str "accept")
        then some 7
        else CaseInsensitiveDict.get (str "accept") accept))
set_header_keeps_spelling_example =
    set_header_keeps_spelling (str "ACCEPT") (str "accept") (several (7 ∷ 8 ∷ [])) 7 accept
      (from_pairs-IsStore accept_pairs) refl
