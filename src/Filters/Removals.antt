-- ===== src/Filters/Removals.antt =====
-- What a list of names, all to be removed, becomes as a dictionary of replacements.
use vcrpy.Prelude.{
  Bool, List, Str, [], arith, false, if◌then◌else◌, refl, some, ◌==◌, ◌||◌, ◌∙◌, ◌∷◌, ◌≡◌, List_eq,
  ℕ_eq,
}
use vcrpy.Dict
use vcrpy.Dict.{Dict, get, get-insert, insert}
use vcrpy.Filters.{Replacement, removals, dict_of}

abbrev pub is_named : List Str → Str → Bool
is_named [] key = false
is_named (name ∷ names) key = name == key || is_named names key

module _ {V : Type 0} where
  pub get-dict_of-removals :
      (names : List Str) (key : Str) (d : Dict Str (Replacement V))
      → Dict.get key (dict_of (removals names) d)
        ≡ (if is_named names key then some Replacement.remove else Dict.get key d)
  unfolding dict_of
  get-dict_of-removals [] key d = refl
  get-dict_of-removals (name ∷ names) key d =
      get-dict_of-removals names key (Dict.insert name Replacement.remove d)
      ∙ ground (arith, get-insert name key Replacement.remove d)
