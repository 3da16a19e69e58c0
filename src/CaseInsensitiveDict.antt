-- ===== src/CaseInsensitiveDict.antt =====
-- vcrmartin/util.py, `class CaseInsensitiveDict` with what it has from `MutableMapping`, and
-- vcrmartin/request.py, `class HeadersDict`. A method that raises `KeyError` changes nothing.
pub mod Laws
pub mod Headers
mod Tests
use vcrpy.Prelude.{
  Bool, List, Option, Result, Str, [], err, is_some, key_error, length, map, none, ok, raised, some,
  ℕ, ◌>>=◌, ◌∷◌, List_eq, ℕ_eq, Pair_eq,
}
use vcrpy.Text.{lower}
use vcrpy.Dict
use vcrpy.Dict.{Dict, erase, insert}

-- `_store`: the key and the value under the key in lower case.
pub record CaseInsensitiveDict (V : Type 0) : Type 0 where
  pub store : Dict Str (Str × V)

abbrev pub or_key_error : {A : Type 0} → Option A → Result A
or_key_error none = err (raised key_error)
or_key_error (some a) = ok a

module _ {V : Type 0} where
  abbrev pub empty : CaseInsensitiveDict V
  empty = record { store = [] }

  -- `__setitem__`
  unfoldable pub set : Str → V → CaseInsensitiveDict V → CaseInsensitiveDict V
  set key value d = record { store = Dict.insert (lower key) (key, value) d.store }

  abbrev pub value_of : Option (Str × V) → Option V
  value_of none = none
  value_of (some (key, value)) = some value

  -- `get`: `None` on the `KeyError` of `__getitem__`.
  unfoldable pub get : Str → CaseInsensitiveDict V → Option V
  get key d = value_of (Dict.get (lower key) d.store)

  -- `__getitem__`
  unfoldable pub get_item : Str → CaseInsensitiveDict V → Result V
  unfolding get
  get_item key d = or_key_error (get key d)

  -- `__delitem__`
  unfoldable pub delete : Str → CaseInsensitiveDict V → Result (CaseInsensitiveDict V)
  delete key d = do
    found ← or_key_error (Dict.get (lower key) d.store)
    ok (record { store = Dict.erase (lower key) d.store })

  -- `__contains__`
  unfoldable pub contains : Str → CaseInsensitiveDict V → Bool
  unfolding get
  contains key d = is_some (get key d)

  -- `__iter__` and `__len__`
  unfoldable pub keys : CaseInsensitiveDict V → List Str
  keys d = map (λ (p : Str × (Str × V)). p.1.0) d.store

  unfoldable pub len : CaseInsensitiveDict V → ℕ
  len d = length d.store

  -- `items` and `lower_items`
  unfoldable pub items : CaseInsensitiveDict V → List (Str × V)
  items d = map (λ (p : Str × (Str × V)). p.1) d.store

  unfoldable pub lower_items : CaseInsensitiveDict V → Dict Str V
  lower_items d = map (λ (p : Str × (Str × V)). (p.0, p.1.1)) d.store

  -- `update` from pairs, one `__setitem__` after another
  unfoldable pub update : List (Str × V) → CaseInsensitiveDict V → CaseInsensitiveDict V
  unfolding set
  update [] d = d
  update ((key, value) ∷ pairs) d = update pairs (set key value d)

  -- `CaseInsensitiveDict(pairs)`
  unfoldable pub from_pairs : List (Str × V) → CaseInsensitiveDict V
  unfolding update
  from_pairs pairs = update pairs empty

  unfoldable pub copy : CaseInsensitiveDict V → CaseInsensitiveDict V
  unfolding from_pairs items
  copy d = from_pairs (items d)

  -- `pop`: `__getitem__`, then `__delitem__`.
  unfoldable pub pop : Str → CaseInsensitiveDict V → Result (V × CaseInsensitiveDict V)
  unfolding get_item delete
  pop key d = do value ← get_item key d; rest ← delete key d; ok (value, rest)
