-- ===== src/Patching/Originals.antt =====
-- vcrmartin/patch.py: what the chain of `_baseclass` leads to. An original is no stub; the patchers
-- keep the chain of every attribute short, and its end the class that the attribute had at first.
use vcrpy.Prelude.{
  All, Bool, Eq, Option, Option-cases, Str, arith, ended, false, inl, inr, none, ok, refl, some,
  subst, suc, true, ℕ, ◌≡◌, ◌⊎◌, List_eq, Pair_eq, ℕ_eq,
}
use vcrpy.Dict.{get, insert, get-insert, get-insert_cases, get-insert_same}
use vcrpy.Patching.{Store, Value, one, table, Place, follow, installed}

-- Where a class is kept: in an attribute, or under a key of the dictionary in an attribute.
pub data Slot (O : Type 0) : Type 0 where
  attribute : Place O → Slot O
  entry : Place O → Str → Slot O

-- The installation: which classes are stubs and what each is for, which attributes are dictionaries
-- with which keys, and which class each slot had at first.
pub record Roles (O C : Type 0) : Type 0 where
  pub is_stub : C → Bool
  pub is_table : Place O → Bool
  pub has_key : Place O → Str → Bool
  pub original : Slot O → C
  pub behind : C → C
  pub original_real : (q : Slot O) → is_stub (original q) ≡ false

module _ {C : Type 0} where
  abbrev pub class_of : Option (Value C) → Option C
  class_of (some (one c)) = some c
  class_of (some (table d)) = none
  class_of none = none

  abbrev pub entry_of : Str → Option (Value C) → Option C
  entry_of k (some (table d)) = get k d
  entry_of k (some (one c)) = none
  entry_of k none = none

module _ {O C : Type 0} ⦃eO : Eq O⦄ where
  unfoldable pub held : Slot O → Store O C → Option C
  held (attribute p) s = class_of (get p s.attributes)
  held (entry p k) s = entry_of k (get p s.attributes)

module _ {O C : Type 0} (roles : Roles O C) where
  abbrev pub HasShape : Place O → Value C → Type 0
  HasShape p (one c) = roles.is_table p ≡ false
  HasShape p (table d) =
      (roles.is_table p ≡ true)
      × ((k : Str) → roles.has_key p k ≡ true → (c : C) × (get k d ≡ some c))

  -- A stub goes where the class belongs that it stands for.
  abbrev pub FitsSlot : Slot O → C → Type 0
  FitsSlot q stub = (roles.is_stub stub ≡ true) × (roles.behind stub ≡ roles.original q)

  abbrev pub Fits : Place O → Value C → Type 0
  Fits p (one stub) = (roles.is_table p ≡ false) × FitsSlot (attribute p) stub
  Fits p (table items) =
      (roles.is_table p ≡ true)
      × All (λ (i : Str × C). (roles.has_key p i.0 ≡ true) × FitsSlot (entry p i.0) i.1) items

module _ {O C : Type 0} ⦃eO : Eq O⦄ ⦃eC : Eq C⦄ (roles : Roles O C) where
  -- Only stubs have a `_baseclass`, the class that they stand for; and the class of a slot is its
  -- original, or a stub whose `_baseclass` is the original.
  pub record IsSound (s : Store O C) : Type 0 where
    pub bases :
        (c : C) (v : Value C)
        → get c s.baseclasses ≡ some v
        → (v ≡ one (roles.behind c))
          × (roles.is_stub c ≡ true)
          × (roles.is_stub (roles.behind c) ≡ false)
    pub slots :
        (q : Slot O) (c : C)
        → held q s ≡ some c
        → ((roles.is_stub c ≡ false) × (c ≡ roles.original q))
          ⊎ (get c s.baseclasses ≡ some (one (roles.original q)))
    pub shapes : (p : Place O) (v : Value C) → get p s.attributes ≡ some v → HasShape roles p v

  real_has_none :
      (s : Store O C) (c : C) → IsSound s → roles.is_stub c ≡ false → get c s.baseclasses ≡ none
  real_has_none s c w real = elim (Option-cases (get c s.baseclasses)) [
    | inl missing ↦ missing
    | inr (v, e) ↦ (let stub = (w.bases c v e).1 in cc (stub, real))
  ]

  -- The loop ends after at most one round, at the original.
  pub follow-original :
      (s : Store O C) (n : ℕ) (q : Slot O) (c : C)
      → IsSound s
      → held q s ≡ some c
      → follow (suc (suc n)) s (one c) ≡ ended (ok (one (roles.original q)))
  unfolding follow
  follow-original s n q c w h = elim (w.slots q c h) [
    | inl (real, same) ↦ rw (follow, real_has_none s c w real) (cc same)
    | inr base ↦
        rw (follow, base)
          (rw (follow, real_has_none s (roles.original q) w (roles.original_real q)))
  ]

  kept_base :
      (s : Store O C) (q : Slot O) (c stub : C) (b : Value C) {o : Slot O}
      → b ≡ one (roles.original o)
      → (one (roles.original q) ≡ one (roles.behind c))
        × (roles.is_stub c ≡ true)
        × (roles.is_stub (roles.behind c) ≡ false)
      → roles.behind stub ≡ roles.original o
      → get c s.baseclasses ≡ some (one (roles.original q))
      → get c (insert stub b s.baseclasses) ≡ some (one (roles.original q))
  kept_base s q c stub b e known fit base =
      ground (arith, get-insert stub c b s.baseclasses, eC.beq_iff stub c)

  -- A stub that fits its slot is installed there, and nothing else is changed.
  pub installed-IsSound :
      (s : Store O C) (q : Slot O) (p : Place O) (v : Value C) (stub : C)
      → IsSound s
      → HasShape roles p v
      → FitsSlot roles q stub
      → ((q' : Slot O) (c : C)
          → held q' (installed p v stub (one (roles.original q)) s) ≡ some c
          → (held q' s ≡ some c) ⊎ ((c ≡ stub) × (q' ≡ q)))
      → IsSound (installed p v stub (one (roles.original q)) s)
  installed-IsSound s q p v stub w shape fits new = record {
    bases = λ c u h. elim (get-insert_cases stub c (one (roles.original q)) u s.baseclasses h) [
      | inl (same, value) ↦
          (cc (same, value, fits.1), cc (same, fits.0), cc (same, fits.1, roles.original_real q))
      | inr (_, old) ↦ w.bases c u old
    ];
    slots = λ q' c h. elim (new q' c h) [
      | inl old ↦ elim (w.slots q' c old) [
        | inl real ↦ inl real
        | inr base ↦
            inr (kept_base s q' c stub (one (roles.original q)) refl (w.bases c _ base) fits.1 base)
      ]
      | inr (same, slot) ↦ inr (rw (same, slot) (get-insert_same stub _ s.baseclasses))
    ];
    shapes = λ p' u h. elim (get-insert_cases p p' v u s.attributes h) [
      | inl (same, value) ↦
          subst (λ x. HasShape roles x u) same (subst (HasShape roles p) value shape)
      | inr (_, old) ↦ w.shapes p' u old
    ];
  }
