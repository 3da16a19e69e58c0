-- ===== src/Clients/Grouping.antt =====
-- Headers that come as pairs, in which a name can stand several times, are kept in a cassette as a
-- dictionary of lists: `_transform_headers` and `_from_serialized_headers` of
-- vcrmartin/stubs/httpx_stubs.py, `_serialize_headers` of vcrmartin/stubs/aiohttp_stubs.py.
use vcrpy.Prelude.{
  Bool-cases, List, Option, Str, [], ap, append-nil, append_assoc, arith, eq_iff, eq_refl, false,
  if◌then◌else◌, inl, inr, none, refl, some, subst, sym, ◌++◌, ◌==◌, ◌∙◌, ◌∷◌, ◌≡◌, List_eq, ℕ_eq,
}
use vcrpy.Dict.{Dict, get, insert, IsDict, insert-IsDict, get-insert, get-insert_same}

abbrev pub Pairs : Type 0 → Type 0
Pairs V = List (Str × V)

module _ {V : Type 0} where
  -- out.setdefault(key, []).append(value)
  abbrev pub append_value : Option (List V) → V → List V
  append_value none value = value ∷ []
  append_value (some values) value = values ++ value ∷ []

  unfoldable pub group_from : Pairs V → Dict Str (List V) → Dict Str (List V)
  group_from [] out = out
  group_from ((key, value) ∷ rest) out =
      group_from rest (insert key (append_value (get key out) value) out)

  -- `_from_serialized_headers`
  abbrev pub pairs_with : Str → List V → Pairs V → Pairs V
  pairs_with key [] rest = rest
  pairs_with key (value ∷ values) rest = (key, value) ∷ pairs_with key values rest

  unfoldable pub from_serialized_headers : Dict Str (List V) → Pairs V
  from_serialized_headers [] = []
  from_serialized_headers ((key, values) ∷ rest) =
      pairs_with key values (from_serialized_headers rest)

  -- The values that stand for a name, in their order.
  abbrev pub values_of : Str → Pairs V → List V
  values_of k [] = []
  values_of k ((key, value) ∷ rest) =
      if key == k then value ∷ values_of k rest else values_of k rest

  abbrev values_at : Option (List V) → List V
  values_at none = []
  values_at (some values) = values

  values_of-pairs_with_same :
      (k : Str) (values : List V) (rest : Pairs V)
      → values_of k (pairs_with k values rest) ≡ values ++ values_of k rest
  values_of-pairs_with_same k [] rest = refl
  values_of-pairs_with_same k (v ∷ values) rest =
      ground (arith, eq_refl k, values_of-pairs_with_same k values rest)

  values_of-pairs_with_other :
      (k key : Str) (values : List V) (rest : Pairs V)
      → (key == k) ≡ false
      → values_of k (pairs_with key values rest) ≡ values_of k rest
  values_of-pairs_with_other k key [] rest h = refl
  values_of-pairs_with_other k key (v ∷ values) rest h =
      rw h (values_of-pairs_with_other k key values rest h)

  values_of-absent :
      (k : Str) (d : Dict Str (List V))
      → get k d ≡ none
      → values_of k (from_serialized_headers d) ≡ []
  unfolding get from_serialized_headers
  values_of-absent k [] h = refl
  values_of-absent k ((key, values) ∷ d) h = elim (Bool-cases (key == k)) [
    | inl same ↦ (let found = rw same at h in cc found)
    | inr differs ↦
        values_of-pairs_with_other k key values (from_serialized_headers d) differs
        ∙ values_of-absent k d (rw differs at h)
  ]

  values_of-from_serialized_headers :
      (k : Str) (d : Dict Str (List V))
      → IsDict d
      → values_of k (from_serialized_headers d) ≡ values_at (get k d)
  unfolding get from_serialized_headers
  values_of-from_serialized_headers k [] w = refl
  values_of-from_serialized_headers k ((key, values) ∷ d) w = elim (Bool-cases (key == k)) [
    | inl same ↦
        let here = (eq_iff key k).0 same in
        let absent : get k d ≡ none = subst (λ x. get x d ≡ none) here w.0 in
        rw (here, eq_refl k)
          (values_of-pairs_with_same k values (from_serialized_headers d)
            ∙ ap (λ rest. values ++ rest) (values_of-absent k d absent)
            ∙ append-nil values)
    | inr differs ↦ rw differs (
        values_of-pairs_with_other k key values (from_serialized_headers d) differs
        ∙ values_of-from_serialized_headers k d w.1)
  ]

  append_value-values_at : (o : Option (List V)) (v : V) → append_value o v ≡ values_at o ++ v ∷ []
  append_value-values_at none v = refl
  append_value-values_at (some values) v = refl

  inserted_value :
      (k key : Str) (value : V) (l : Pairs V) (d : Dict Str (List V))
      → values_at (get k (insert key (append_value (get key d) value) d)) ++ values_of k l
        ≡ values_at (get k d) ++ values_of k ((key, value) ∷ l)
  inserted_value k key value l d = elim (Bool-cases (key == k)) [
    | inl same ↦
        let here = (eq_iff key k).0 same in
        rw (here, eq_refl k, get-insert_same k (append_value (get k d) value) d)
          (ap (λ values. values ++ values_of k l) (append_value-values_at (get k d) value)
            ∙ append_assoc (values_at (get k d)) (value ∷ []) (values_of k l))
    | inr differs ↦ rw (differs, get-insert key k (append_value (get key d) value) d, differs) refl
  ]

  get-group_from :
      (k : Str) (l : Pairs V) (d : Dict Str (List V))
      → values_at (get k (group_from l d)) ≡ values_at (get k d) ++ values_of k l
  unfolding group_from
  get-group_from k [] d = sym (append-nil _)
  get-group_from k ((key, value) ∷ l) d =
      get-group_from k l (insert key (append_value (get key d) value) d)
      ∙ inserted_value k key value l d

  group_from-IsDict : (l : Pairs V) (d : Dict Str (List V)) → IsDict d → IsDict (group_from l d)
  unfolding group_from
  group_from-IsDict [] d w = w
  group_from-IsDict ((key, value) ∷ l) d w =
      group_from-IsDict l (insert key (append_value (get key d) value) d) (insert-IsDict key _ d w)

  -- Grouped and listed again, the headers have for every name the same values, in the same order.
  pub values_of-grouped :
      (k : Str) (l : Pairs V)
      → values_of k (from_serialized_headers (group_from l [])) ≡ values_of k l
  unfolding get
  values_of-grouped k l =
      values_of-from_serialized_headers k (group_from l []) (group_from-IsDict l [] tt)
      ∙ get-group_from k l []
