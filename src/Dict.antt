-- ===== src/Dict.antt =====
-- Python's `dict`: pairs in the order of insertion. An assignment to a key that is there keeps its
-- place.
use vcrpy.Prelude.{
  All, Bool-cases, Eq, List, Option, [], arith, if◌then◌else◌, inl, inr, none, refl, some,
  some-injective, subst, ◌++◌, ◌∷◌, ◌≡◌, ◌≢◌, ◌⊎◌,
}

abbrev pub Dict : Type 0 → Type 0 → Type 0
Dict K V = List (K × V)

module _ {K V : Type 0} ⦃e : Eq K⦄ where
  -- d.get(k)
  unfoldable pub get : K → Dict K V → Option V
  get k [] = none
  get k ((j, v) ∷ d) = if e.beq j k then some v else get k d

  -- d[k] = v
  unfoldable pub insert : K → V → Dict K V → Dict K V
  insert k v [] = (k, v) ∷ []
  insert k v ((j, w) ∷ d) = if e.beq j k then (j, v) ∷ d else (j, w) ∷ insert k v d

  -- d.pop(k, None)
  unfoldable pub erase : K → Dict K V → Dict K V
  erase k [] = []
  erase k ((j, w) ∷ d) = if e.beq j k then d else (j, w) ∷ erase k d

  -- No key stands twice.
  abbrev pub IsDict : Dict K V → Type 0
  IsDict [] = Unit
  IsDict ((k, v) ∷ d) = (get k d ≡ none) × IsDict d

  pub get-insert :
      (k j : K) (v : V) (d : Dict K V)
      → get j (insert k v d) ≡ (if e.beq k j then some v else get j d)
  unfolding get insert
  get-insert k j v [] = refl
  get-insert k j v ((i, w) ∷ d) =
      ground (arith, e.beq_iff k j, e.beq_iff i k, e.beq_iff i j, get-insert k j v d)

  pub get-erase :
      (k j : K) (d : Dict K V)
      → IsDict d
      → get j (erase k d) ≡ (if e.beq k j then none else get j d)
  unfolding get erase
  get-erase k j [] w = ground arith
  get-erase k j ((i, v) ∷ d) w =
      ground (arith, e.beq_iff k j, e.beq_iff i k, e.beq_iff i j, get-erase k j d w.1)

  pub insert-IsDict : (k : K) (v : V) (d : Dict K V) → IsDict d → IsDict (insert k v d)
  unfolding insert get
  insert-IsDict k v [] w = (refl, tt)
  insert-IsDict k v ((j, u) ∷ d) w =
      ground (arith, insert-IsDict k v d w.1, get-insert k j v d, e.beq_iff j k, e.beq_iff k j)

  pub erase-IsDict : (k : K) (d : Dict K V) → IsDict d → IsDict (erase k d)
  unfolding erase
  erase-IsDict k [] w = tt
  erase-IsDict k ((j, u) ∷ d) w =
      ground (arith, erase-IsDict k d w.1, get-erase k j d w.1, e.beq_iff j k, e.beq_iff k j)

  -- A new key goes to the end.
  pub insert_new : (k : K) (v : V) (d : Dict K V) → get k d ≡ none → insert k v d ≡ d ++ (k, v) ∷ []
  unfolding insert get
  insert_new k v [] h = refl
  insert_new k v ((j, w) ∷ d) h = ground (arith, insert_new k v d)

  pub get-insert_same : (k : K) (v : V) (d : Dict K V) → get k (insert k v d) ≡ some v
  get-insert_same k v d = ground (arith, get-insert k k v d, e.beq_iff k k)

  pub get-insert_cases :
      (k j : K) (v u : V) (d : Dict K V)
      → get j (insert k v d) ≡ some u
      → ((k ≡ j) × (v ≡ u)) ⊎ ((k ≢ j) × (get j d ≡ some u))
  get-insert_cases k j v u d h = ground (arith, get-insert k j v d, e.beq_iff k j)

  pub get-insert_other : (k j : K) (v : V) (d : Dict K V) → k ≢ j → get j (insert k v d) ≡ get j d
  get-insert_other k j v d h = ground (arith, get-insert k j v d, e.beq_iff k j)

pub get-All {κ} :
    {K V : Type 0} ⦃e : Eq K⦄ (P : V → Type κ) (k : K) (d : Dict K V) {v : V}
    → All (λ (x : K × V). P x.1) d
    → get k d ≡ some v
    → P v
unfolding get
get-All P k [] a h = cc h
get-All ⦃e⦄ P k ((j, w) ∷ d) a h = elim (Bool-cases (e.beq j k)) [
  | inl yes_here ↦ subst P (some-injective _ _ (rw yes_here at h)) a.0
  | inr later ↦ get-All P k d a.1 (rw later at h)
]
