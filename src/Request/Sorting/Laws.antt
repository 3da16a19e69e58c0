-- ===== src/Request/Sorting/Laws.antt =====
-- `sorted` of a query forgets the order of the parameters and nothing else.
use mathlib.Core.List.{Perm, Permᴰ}
use mathlib.Core.List.Perm
use mathlib.Core.Logic.{∥∥₁_elim}
use vcrpy.Prelude.{
  Bool-cases, List, Str, [], arith, eq_iff, false, inl, inr, refl, subst, sym, true, ◌↔◌, ◌∙◌, ◌∷◌,
  ◌≡◌, List_eq, ℕ_eq,
}
use vcrpy.Request.Sorting.{Pair, text_le, pair_le, insert_pair, sorted}

text_le_total : (a b : Str) → text_le a b ≡ false → text_le b a ≡ true
unfolding text_le
text_le_total [] b h = cc
text_le_total (x ∷ a) [] h = refl
text_le_total (x ∷ a) (y ∷ b) h = ground (arith, text_le_total a b)

text_le_antisymm : (a b : Str) → text_le a b ≡ true → text_le b a ≡ true → a ≡ b
unfolding text_le
text_le_antisymm [] [] h k = refl
text_le_antisymm [] (y ∷ b) h k = cc
text_le_antisymm (x ∷ a) [] h k = cc
text_le_antisymm (x ∷ a) (y ∷ b) h k = ground (arith, text_le_antisymm a b)

text_le_trans : (a b c : Str) → text_le a b ≡ true → text_le b c ≡ true → text_le a c ≡ true
unfolding text_le
text_le_trans [] b c h k = refl
text_le_trans (x ∷ a) [] c h k = cc
text_le_trans (x ∷ a) (y ∷ b) [] h k = cc
text_le_trans (x ∷ a) (y ∷ b) (z ∷ c) h k = ground (arith, text_le_trans a b c)

pair_le_total : (p q : Pair) → pair_le p q ≡ false → pair_le q p ≡ true
unfolding pair_le
pair_le_total (a, b) (c, d) h =
    ground (arith, text_le_total a c, text_le_total b d, eq_iff a c, eq_iff c a)

pair_le_antisymm : (p q : Pair) → pair_le p q ≡ true → pair_le q p ≡ true → p ≡ q
unfolding pair_le
pair_le_antisymm (a, b) (c, d) h k =
    ground (arith, text_le_antisymm a c, text_le_antisymm b d, eq_iff a c, eq_iff c a)

pair_le_trans : (p q r : Pair) → pair_le p q ≡ true → pair_le q r ≡ true → pair_le p r ≡ true
unfolding pair_le
pair_le_trans (a, b) (c, d) (e, f) h k = ground (
  arith,
  text_le_trans a c e,
  text_le_trans b d f,
  text_le_antisymm a c,
  text_le_antisymm c e,
  eq_iff a c,
  eq_iff c e,
  eq_iff a e,
)

insert_pair_comm :
    (p q : Pair) (l : List Pair) → insert_pair p (insert_pair q l) ≡ insert_pair q (insert_pair p l)
unfolding insert_pair
insert_pair_comm p q [] = ground (arith, pair_le_total p q, pair_le_total q p, pair_le_antisymm p q)
insert_pair_comm p q (r ∷ l) = ground (
  arith,
  insert_pair_comm p q l,
  pair_le_total p q,
  pair_le_total q p,
  pair_le_antisymm p q,
  pair_le_total p r,
  pair_le_total q r,
  pair_le_trans p r q,
  pair_le_trans q r p,
  pair_le_trans p q r,
  pair_le_trans q p r,
)

sorted-of_perm : {l m : List Pair} → Permᴰ l m → sorted l ≡ sorted m
unfolding sorted
sorted-of_perm Permᴰ.nil = refl
sorted-of_perm (Permᴰ.cons {a} same rest) = cc (same, sorted-of_perm rest)
sorted-of_perm (Permᴰ.swap {a} {b} {l = l} e f) = cc (e, f, insert_pair_comm a b (sorted l))
sorted-of_perm (Permᴰ.trans d1 d2) = sorted-of_perm d1 ∙ sorted-of_perm d2

insert_pair-perm : (p : Pair) (l : List Pair) → Perm (insert_pair p l) (p ∷ l)
unfolding insert_pair
insert_pair-perm p [] = Perm.rfl
insert_pair-perm p (q ∷ l) = elim (Bool-cases (pair_le p q)) [
  | inl h ↦ rw h Perm.rfl
  | inr h ↦ rw h (Perm.trans (Perm.cons q (insert_pair-perm p l)) (Perm.swap p q l))
]

sorted-perm : (l : List Pair) → Perm (sorted l) l
unfolding sorted
sorted-perm [] = Perm.rfl
sorted-perm (p ∷ l) = Perm.trans (insert_pair-perm p (sorted l)) (Perm.cons p (sorted-perm l))

list_of_pairs_set : IsSet (List Pair)
list_of_pairs_set = hlevel

-- Sorting two lists of pairs gives the same list exactly when one is a permutation of the other.
pub sorted_iff_perm : (l m : List Pair) → (sorted l ≡ sorted m) ↔ Perm l m
sorted_iff_perm l m = (
  λ same. Perm.trans (Perm.symm (sorted-perm l)) (subst (λ s. Perm s m) (sym same) (sorted-perm m)),
  λ perm. ∥∥₁_elim perm (list_of_pairs_set (sorted l) (sorted m)) sorted-of_perm,
)
