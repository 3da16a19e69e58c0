-- ===== src/Patching/Naming.antt =====
-- vcrmartin/patch.py: the slots that the triples name, and that an installation changes the slot it
-- names, and no other.
use vcrpy.Prelude.{
  Bool, Eq, List, Option, Str, [], ap, arith, eq_iff, false, if◌then◌else◌, none, refl, some, sym,
  true, ◌&&◌, ◌++◌, ◌==◌, ◌∙◌, ◌∷◌, ◌≡◌, ◌⊎◌, List_eq, Pair_eq, ℕ_eq,
}
use vcrpy.Dict.{Dict, get, insert, get-insert}
use vcrpy.Patching.{Store, Value, one, table, Place, Triple, installed}
use vcrpy.Patching.Originals.{Slot, attribute, entry, held}

module _ {O C : Type 0} where
  -- The slots that a triple names, each with its stub.
  abbrev pub entries_of : Place O → Dict Str C → List (Slot O × C)
  entries_of p [] = []
  entries_of p ((k, stub) ∷ items) = (entry p k, stub) ∷ entries_of p items

  abbrev pub slots_of : Triple O C → List (Slot O × C)
  slots_of t = elim t.replacement [
    | one stub ↦ (attribute t.place, stub) ∷ []
    | table items ↦ entries_of t.place items
  ]

  abbrev pub all_slots : List (Triple O C) → List (Slot O × C)
  all_slots [] = []
  all_slots (t ∷ triples) = slots_of t ++ all_slots triples

module _ {C : Type 0} where
  -- A slot that does not exist stays so.
  abbrev pub or_held : Option C → Option C → Option C
  or_held none before = before
  or_held (some stub) none = none
  or_held (some stub) (some c) = some stub

  abbrev pub or_earlier : Option C → Option C → Option C
  or_earlier none earlier = earlier
  or_earlier (some stub) earlier = some stub

  pub or_held-twice : (a b h : Option C) → or_held a (or_held b h) ≡ or_held (or_earlier a b) h
  or_held-twice none b h = refl
  or_held-twice (some x) none h = refl
  or_held-twice (some x) (some y) none = refl
  or_held-twice (some x) (some y) (some c) = refl

  or_earlier-none : (a : Option C) → or_earlier a none ≡ a
  or_earlier-none none = refl
  or_earlier-none (some x) = refl

  or_earlier_assoc :
      (a b c : Option C) → or_earlier (or_earlier a b) c ≡ or_earlier a (or_earlier b c)
  or_earlier_assoc none b c = refl
  or_earlier_assoc (some x) b c = refl

module _ {O : Type 0} ⦃eO : Eq O⦄ where
  abbrev pub same_slot : Slot O → Slot O → Bool
  same_slot (attribute p) (attribute q) = p == q
  same_slot (entry p k) (entry q j) = p == q && k == j
  same_slot _ _ = false

  -- The stub that a list of slots names last.
  abbrev pub named_last : {C : Type 0} → List (Slot O × C) → Slot O → Option C
  named_last [] q = none
  named_last ((q', stub) ∷ rest) q =
      or_earlier (named_last rest q) (if same_slot q' q then some stub else none)

  pub named_last-append :
      {C : Type 0} (xs ys : List (Slot O × C)) (q : Slot O)
      → named_last (xs ++ ys) q ≡ or_earlier (named_last ys q) (named_last xs q)
  named_last-append [] ys q = sym (or_earlier-none _)
  named_last-append ((q', stub) ∷ xs) ys q =
      ap (λ x. or_earlier x (if same_slot q' q then some stub else none))
        (named_last-append xs ys q)
      ∙ or_earlier_assoc (named_last ys q) (named_last xs q)
          (if same_slot q' q then some stub else none)

  pub same_slot_sound : (q q' : Slot O) → same_slot q q' ≡ true → q ≡ q'
  same_slot_sound (attribute p) (attribute p') h = ap (λ x. attribute x) ((eq_iff p p').0 h)
  same_slot_sound (entry p k) (entry p' k') h =
      let parts : (p ≡ p') × (k ≡ k') = ground (arith, eq_iff p p', eq_iff k k') in
      cc (parts.0, parts.1)
  same_slot_sound (attribute p) (entry p' k') h = cc h
  same_slot_sound (entry p k) (attribute p') h = cc h

module _ {O C : Type 0} ⦃eO : Eq O⦄ where
  abbrev Named : Slot O → C → Store O C → Store O C → Type 0
  Named q0 stub s s' =
      (q : Slot O) → held q s' ≡ or_held (if same_slot q0 q then some stub else none) (held q s)

  pub Named-new :
      (q0 : Slot O) (stub : C) (s s' : Store O C)
      → Named q0 stub s s'
      → (q : Slot O) (c : C) → held q s' ≡ some c
      → (held q s ≡ some c) ⊎ ((c ≡ stub) × (q ≡ q0))
  Named-new q0 stub s s' named q c h = ground (arith, named q, same_slot_sound q0 q)

module _ {O C : Type 0} ⦃eO : Eq O⦄ ⦃eC : Eq C⦄ where
  pub attribute-Named :
      (s : Store O C) (p : Place O) (stub c : C) (b : Value C)
      → get p s.attributes ≡ some (one c)
      → Named (attribute p) stub s (installed p (one stub) stub b s)
  unfolding held
  attribute-Named s p stub c b e (attribute p') =
      ground (arith, get-insert p p' (one stub) s.attributes, eq_iff p p')
  attribute-Named s p stub c b e (entry p' k) =
      ground (arith, get-insert p p' (one stub) s.attributes, eq_iff p p')

  pub entry-Named :
      (s : Store O C) (p : Place O) (k : Str) (stub c : C) (d : Dict Str C) (b : Value C)
      → get p s.attributes ≡ some (table d)
      → get k d ≡ some c
      → Named (entry p k) stub s (installed p (table (insert k stub d)) stub b s)
  unfolding held
  entry-Named s p k stub c d b e f (attribute p') =
      ground (arith, get-insert p p' (table (insert k stub d)) s.attributes, eq_iff p p')
  entry-Named s p k stub c d b e f (entry p' k') = ground (
    arith,
    get-insert p p' (table (insert k stub d)) s.attributes,
    get-insert k k' stub d,
    eq_iff p p',
    eq_iff k k',
  )
