-- ===== src/Config/TestCase.antt =====
-- The metaclass of vcrmartin/util.py, `auto_decorate`, and the predicate that `test_case` of
-- vcrmartin/config.py gives to it: attributes are decorated when a class is made, and when they are
-- set.
use vcrpy.Text.{starts_with}
use vcrpy.Dict.{Dict, insert}
use vcrpy.Prelude.{
  Bool, Bool-cases, List, Str, [], ap, false, if◌then◌else◌, inl, inr, list_eq, list_eq_iff, refl,
  str, sym, ◌∙◌, ◌∷◌, ◌≡◌, ℕ_eq, List_eq,
}

-- The value of an attribute; a function is of `types.FunctionType`.
data Attribute (F V : Type 0) : Type 0 where
  function : F → Attribute F V
  other : V → Attribute F V

module _ {F V : Type 0} where
  unfoldable is_test_method : Str → Attribute F V → Bool
  unfolding starts_with
  is_test_method method_name (Attribute.function f) = starts_with (str "test") method_name
  is_test_method method_name (other v) = false

  module _ (decorator : Attribute F V → Attribute F V)
      (predicate : Str → Attribute F V → Bool) where
    abbrev maybe_decorate : Str → Attribute F V → Attribute F V
    maybe_decorate attribute value = if predicate attribute value then decorator value else value

    -- `DecorateAll.__new__`
    unfoldable create_class : Dict Str (Attribute F V) → Dict Str (Attribute F V)
    create_class [] = []
    create_class ((attribute, value) ∷ attributes) =
        (attribute, maybe_decorate attribute value) ∷ create_class attributes

    -- `DecorateAll.__setattr__`
    unfoldable set_attribute :
        Str → Attribute F V → Dict Str (Attribute F V) → Dict Str (Attribute F V)
    set_attribute attribute value cls = insert attribute (maybe_decorate attribute value) cls

  abbrev assign_all :
      {C : Type 0} → (Str → Attribute F V → C → C) → List (Str × Attribute F V) → C → C
  assign_all assign [] cls = cls
  assign_all assign ((attribute, value) ∷ rest) cls =
      assign_all assign rest (assign attribute value cls)

  module _ (decorator : Attribute F V → Attribute F V)
      (predicate : Str → Attribute F V → Bool) where
    create-insert :
        (attribute : Str) (value : Attribute F V) (cls : Dict Str (Attribute F V))
        → create_class decorator predicate (insert attribute value cls)
          ≡ set_attribute decorator predicate attribute value (create_class decorator predicate cls)
    unfolding create_class set_attribute insert
    create-insert attribute value [] = refl
    create-insert attribute value ((name, v) ∷ cls) = elim (Bool-cases (list_eq name attribute)) [
      | inl h ↦
          let same = (list_eq_iff name attribute).0 h in
          rw h (λ i.
            (name, maybe_decorate decorator predicate (same i) value)
            ∷ create_class decorator predicate cls)
      | inr h ↦ rw h (
          ap (λ d. (name, maybe_decorate decorator predicate name v) ∷ d)
            (create-insert attribute value cls))
    ]

    -- A class is at any time the plain class of the same body and the same assignments, with each
    -- attribute decorated, exactly once, if the predicate holds of the name and the value that it
    -- has there.
    class_follows_plain :
        (assignments : List (Str × Attribute F V)) (cls : Dict Str (Attribute F V))
        → assign_all
            (set_attribute decorator predicate)
            assignments
            (create_class decorator predicate cls)
          ≡ create_class decorator predicate (assign_all insert assignments cls)
    class_follows_plain [] cls = refl
    class_follows_plain ((attribute, value) ∷ rest) cls =
        ap (assign_all (set_attribute decorator predicate) rest)
          (sym (create-insert attribute value cls))
        ∙ class_follows_plain rest (insert attribute value cls)
