-- ===== src/CaseInsensitiveDict/Laws.antt =====
-- Look-ups in a `CaseInsensitiveDict` of vcrmartin/util.py do not see the case of keys.
use vcrpy.Prelude.{
  All, List, Str, [], ap, append-nil, append_assoc, arith, eq_iff, if◌then◌else◌, none, ok, refl,
  some, subst, sym, ◌++◌, ◌==◌, ◌∙◌, ◌∷◌, ◌≡◌, List_eq, ℕ_eq,
}
use vcrpy.Text.{lower}
use vcrpy.Dict
use vcrpy.Dict.{
  Dict, IsDict, get-insert, get-erase, insert_new, insert-IsDict, erase-IsDict, insert, erase,
}
use vcrpy.CaseInsensitiveDict.{
  CaseInsensitiveDict, empty, set, get, copy, update, items, pop, from_pairs,
}

module _ {V : Type 0} where
  -- Every entry stands under its key in lower case.
  abbrev pub IsLowered : Dict Str (Str × V) → Type 0
  IsLowered [] = Unit
  IsLowered ((k, (key, value)) ∷ s) = (k ≡ lower key) × IsLowered s

  -- The invariant of the class.
  pub record IsStore (d : CaseInsensitiveDict V) : Type 0 where
    pub lowered : IsLowered d.store
    pub distinct : IsDict d.store

  IsLowered-insert :
      (key : Str) (value : V) (s : Dict Str (Str × V))
      → IsLowered s
      → IsLowered (Dict.insert (lower key) (key, value) s)
  unfolding Dict.insert
  IsLowered-insert key value [] w = (refl, tt)
  IsLowered-insert key value ((j, (k, v)) ∷ s) w =
      ground (arith, IsLowered-insert key value s w.1, eq_iff j (lower key))

  pub set-IsStore :
      (key : Str) (value : V) (d : CaseInsensitiveDict V) → IsStore d → IsStore (set key value d)
  unfolding set
  set-IsStore key value d w = record {
    lowered = IsLowered-insert key value d.store w.lowered;
    distinct = insert-IsDict (lower key) (key, value) d.store w.distinct;
  }

  -- After `d[key] = value` a look-up by any spelling of the key finds the value, and look-ups by
  -- other keys find what they found before.
  pub get-set :
      (key other : Str) (value : V) (d : CaseInsensitiveDict V)
      → get other (set key value d) ≡ (if lower key == lower other then some value else get other d)
  unfolding get set
  get-set key other value d =
      ground (arith, get-insert (lower key) (lower other) (key, value) d.store)

  pub lower-of_IsLowered :
      (k : Str) (old : Str × V) (s : Dict Str (Str × V))
      → IsLowered s
      → Dict.get k s ≡ some old
      → lower old.0 ≡ k
  unfolding Dict.get
  lower-of_IsLowered k old [] w h = cc
  lower-of_IsLowered k old ((j, u) ∷ s) w h =
      ground (arith, lower-of_IsLowered k old s w.1, eq_iff j k)

  IsLowered-erase : (k : Str) (s : Dict Str (Str × V)) → IsLowered s → IsLowered (Dict.erase k s)
  unfolding Dict.erase
  IsLowered-erase k [] w = tt
  IsLowered-erase k ((j, (key, value)) ∷ s) w = ground (arith, IsLowered-erase k s w.1)

  pub erase-IsStore :
      (k : Str) (d : CaseInsensitiveDict V)
      → IsStore d
      → IsStore (record { store = Dict.erase k d.store })
  erase-IsStore k d w = record {
    lowered = IsLowered-erase k d.store w.lowered;
    distinct = erase-IsDict k d.store w.distinct;
  }

  pub get-erase_key :
      (k other : Str) (d : CaseInsensitiveDict V)
      → IsStore d
      → get other (record { store = Dict.erase k d.store })
        ≡ (if k == lower other then none else get other d)
  unfolding get
  get-erase_key k other d w = ground (arith, get-erase k (lower other) d.store w.distinct)

  -- `pop` by any spelling of a stored key returns its value; afterwards that key is gone, and every
  -- other is found as before.
  pub pop_removes :
      (key : Str) (value : V) (d : CaseInsensitiveDict V)
      → IsStore d
      → get key d ≡ some value
      → (d' : CaseInsensitiveDict V) × (pop key d ≡ ok (value, d'))
        × IsStore d'
        × ((other : Str) → get other d' ≡ (if lower key == lower other then none else get other d))
  unfolding pop get
  pop_removes key value d w h = (
    record { store = Dict.erase (lower key) d.store },
    ground arith,
    erase-IsStore (lower key) d w,
    λ other. get-erase_key (lower key) other d w,
  )

  -- Two spellings of a key find the same.
  pub get_same_lower :
      (a b : Str) (d : CaseInsensitiveDict V) → lower a ≡ lower b → get a d ≡ get b d
  unfolding get
  get_same_lower a b d same = rw same

  -- No key of the second is a key of the first.
  abbrev pub Fresh : Dict Str (Str × V) → Dict Str (Str × V) → Type 0
  Fresh before = All (λ (p : Str × (Str × V)). Dict.get p.0 before ≡ none)

  pub Fresh-nil : (s : Dict Str (Str × V)) → Fresh [] s
  unfolding Dict.get
  Fresh-nil [] = tt
  Fresh-nil (p ∷ s) = (refl, Fresh-nil s)

  pub Fresh-insert :
      (k : Str) (v : Str × V) (before s : Dict Str (Str × V))
      → Dict.get k s ≡ none
      → Fresh before s
      → Fresh (Dict.insert k v before) s
  unfolding Dict.get
  Fresh-insert k v before [] h f = tt
  Fresh-insert k v before ((j, u) ∷ s) h f =
      ground (arith, Fresh-insert k v before s, get-insert k j v before, eq_iff j k, eq_iff k j)

  pub update-items :
      (before s : Dict Str (Str × V))
      → IsLowered s
      → IsDict s
      → Fresh before s
      → update (items (record { store = s })) (record { store = before })
        ≡ record { store = before ++ s }
  unfolding update items
  update-items before [] l d f = λ i. record { store = sym (append-nil before) i }
  update-items before ((k, (key, value)) ∷ s) l d f =
      let placed : Dict.insert k (key, value) before ≡ before ++ (k, (key, value)) ∷ [] =
        insert_new k (key, value) before f.0 in
      let later =
        update-items (Dict.insert k (key, value) before) s l.1 d.1
          (Fresh-insert k (key, value) before s d.0 f.1) in
      let joined = ap (λ b. b ++ s) placed ∙ append_assoc before ((k, (key, value)) ∷ []) s in
      subst
        (λ j.
          update (items (record { store = s }))
            (record { store = Dict.insert j (key, value) before })
          ≡ record { store = before ++ (k, (key, value)) ∷ s })
        l.0 (later ∙ λ i. record { store = joined i })

  -- The keys of a copy have the spelling and the order of the original.
  pub copy-eq_self : (d : CaseInsensitiveDict V) → IsStore d → copy d ≡ d
  unfolding copy
  copy-eq_self d w = update-items [] d.store w.lowered w.distinct (Fresh-nil d.store)

  pub update-IsStore :
      (pairs : List (Str × V)) (d : CaseInsensitiveDict V) → IsStore d → IsStore (update pairs d)
  unfolding update
  update-IsStore [] d w = w
  update-IsStore ((key, value) ∷ pairs) d w =
      update-IsStore pairs (set key value d) (set-IsStore key value d w)

  -- What the constructor makes of pairs keeps the invariant.
  pub from_pairs-IsStore : (pairs : List (Str × V)) → IsStore (from_pairs pairs)
  unfolding from_pairs
  from_pairs-IsStore pairs = update-IsStore pairs empty (record { lowered = tt; distinct = tt })
