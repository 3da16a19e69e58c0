-- ===== src/CaseInsensitiveDict/Headers.antt =====
-- vcrmartin/request.py, `class HeadersDict`: the first spelling of a key stays, and of a list of
-- values the first counts.
use vcrpy.Prelude.{
  List, Option, Option-cases, Result, Str, [], ap, arith, eq_iff, err, if◌then◌else◌, index_error,
  inl, inr, is_some, map, none, ok, raised, refl, some, subst, ◌++◌, ◌==◌, ◌>>=◌, ◌∙◌, ◌∷◌, ◌≡◌,
  List_eq, ℕ_eq,
}
use vcrpy.Text.{lower}
use vcrpy.Dict
use vcrpy.Dict.{IsDict, get-insert, Dict, insert}
use vcrpy.CaseInsensitiveDict.Laws.{
  IsStore, Fresh, Fresh-nil, Fresh-insert, update-items, IsLowered, lower-of_IsLowered, get-set,
}
use vcrpy.CaseInsensitiveDict.{CaseInsensitiveDict, empty, set, get, keys, items, update}

-- What `__setitem__` is given: a tuple or list, or one value.
pub data HeaderValue (V : Type 0) : Type 0 where
  single : V → HeaderValue V
  several : List V → HeaderValue V

module _ {V : Type 0} where
  abbrev pub first_value : HeaderValue V → Result V
  first_value (single v) = ok v
  first_value (several []) = err (raised index_error)
  first_value (several (v ∷ vs)) = ok v

  -- The key as it was set first.
  abbrev pub first_spelling : Str → Option (Str × V) → Str
  first_spelling key none = key
  first_spelling key (some (old, value)) = old

  -- `HeadersDict.__setitem__`
  unfoldable pub set_header :
      Str → HeaderValue V → CaseInsensitiveDict V → Result (CaseInsensitiveDict V)
  unfolding set
  set_header key value d = do
    v ← first_value value
    ok (set (first_spelling key (Dict.get (lower key) d.store)) v d)

  -- `HeadersDict(pairs)`
  unfoldable pub headers_from :
      List (Str × HeaderValue V) → CaseInsensitiveDict V → Result (CaseInsensitiveDict V)
  unfolding set_header
  headers_from [] d = ok d
  headers_from ((key, value) ∷ pairs) d = do d' ← set_header key value d; headers_from pairs d'

  keys-insert_old :
      (k : Str) (new old : Str × V) (s : Dict.Dict Str (Str × V))
      → Dict.get k s ≡ some old
      → new.0 ≡ old.0
      → map (λ (p : Str × (Str × V)). p.1.0) (Dict.insert k new s)
        ≡ map (λ (p : Str × (Str × V)). p.1.0) s
  unfolding Dict.get Dict.insert
  keys-insert_old k new old [] h e = cc
  keys-insert_old k new old ((j, u) ∷ s) h e =
      ground (arith, keys-insert_old k new old s, eq_iff j k)

  keys-insert_new :
      (k : Str) (new : Str × V) (s : Dict.Dict Str (Str × V))
      → Dict.get k s ≡ none
      → map (λ (p : Str × (Str × V)). p.1.0) (Dict.insert k new s)
        ≡ map (λ (p : Str × (Str × V)). p.1.0) s ++ new.0 ∷ []
  unfolding Dict.get Dict.insert
  keys-insert_new k new [] h = refl
  keys-insert_new k new ((j, u) ∷ s) h = ground (arith, keys-insert_new k new s)

  lower-first_spelling :
      (key : Str) (d : CaseInsensitiveDict V)
      → IsStore d
      → lower (first_spelling key (Dict.get (lower key) d.store)) ≡ lower key
  lower-first_spelling key d w = elim (Option-cases (Dict.get (lower key) d.store)) [
    | inl new ↦ rw new
    | inr (old, e) ↦ rw e (lower-of_IsLowered (lower key) old d.store w.lowered e)
  ]

  keys-set_header :
      (key : Str) (v : V) (d : CaseInsensitiveDict V)
      → IsStore d
      → keys (set (first_spelling key (Dict.get (lower key) d.store)) v d)
        ≡ (if is_some (get key d) then keys d else keys d ++ key ∷ [])
  unfolding keys set get
  keys-set_header key v d w = elim (Option-cases (Dict.get (lower key) d.store)) [
    | inl new ↦ rw new (keys-insert_new (lower key) (key, v) d.store new)
    | inr (old, e) ↦
        rw (e, lower-of_IsLowered (lower key) old d.store w.lowered e)
          (keys-insert_old (lower key) (old.0, v) old d.store e refl)
  ]

  -- Setting a header that is there, in any spelling, leaves all spellings and their order as they
  -- were; a new one goes to the end. A look-up in any spelling then finds the value, or the first
  -- of the list of values, and look-ups by other keys find what they found before.
  pub set_header_keeps_spelling :
      (key other : Str) (value : HeaderValue V) (v : V) (d : CaseInsensitiveDict V)
      → IsStore d
      → first_value value ≡ ok v
      → (d' : CaseInsensitiveDict V) × (set_header key value d ≡ ok d')
        × (keys d' ≡ (if is_some (get key d) then keys d else keys d ++ key ∷ []))
        × (get other d' ≡ (if lower key == lower other then some v else get other d))
  set_header_keeps_spelling key other value v d w h =
      let spelling = first_spelling key (Dict.get (lower key) d.store) in
      (
        set spelling v d,
        unfold set_header in rw h,
        keys-set_header key v d w,
        rw (get-set spelling other v d, lower-first_spelling key d w),
      )

  abbrev pub singles : List (Str × V) → List (Str × HeaderValue V)
  singles = map (λ (p : Str × V). (p.0, single p.1))

  headers_from-singles :
      (before s : Dict.Dict Str (Str × V))
      → IsLowered s
      → IsDict s
      → Fresh before s
      → headers_from (singles (items (record { store = s }))) (record { store = before })
        ≡ ok (update (items (record { store = s })) (record { store = before }))
  unfolding headers_from set_header update set items
  headers_from-singles before [] l d f = refl
  headers_from-singles before ((k, (key, value)) ∷ s) l d f =
      let new : Dict.get (lower key) before ≡ none =
        subst (λ j. Dict.get j before ≡ none) l.0 f.0 in
      let apart : Dict.get (lower key) s ≡ none = subst (λ j. Dict.get j s ≡ none) l.0 d.0 in
      let rest =
        headers_from-singles (Dict.insert (lower key) (key, value) before) s l.1 d.1
          (Fresh-insert (lower key) (key, value) before s apart f.1) in
      rw new rest

  -- The `HeadersDict` of a dictionary that holds the invariant has the same store.
  pub headers_from-items :
      (d : CaseInsensitiveDict V) → IsStore d → headers_from (singles (items d)) empty ≡ ok d
  headers_from-items d w =
      headers_from-singles [] d.store w.lowered w.distinct (Fresh-nil d.store)
      ∙ ap ok (update-items [] d.store w.lowered w.distinct (Fresh-nil d.store))
