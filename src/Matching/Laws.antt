-- ===== src/Matching/Laws.antt =====
-- What `requests_match` and `get_matchers_results` of vcrmartin/matchers.py decide.
use vcrpy.Prelude.{
  All, Bool, List, Option, Str, String, [], ap, arith, false, length, map, none, ok, ok_of_bind,
  refl, some, suc, true, ◌+◌, ◌↔◌, ◌∙◌, ◌∷◌, ◌≡◌, ◌⊎◌,
}
use vcrpy.Matching.{
  Matcher, Fail, evaluate_matcher, file_under, get_matchers_results, no_failures, requests_match,
}

no_failures-file_under :
    (name : String) (o : Bool × Option Str) (q : List String × List Fail)
    → no_failures (file_under name o q) ≡ true
    → (o.0 ≡ true) × (no_failures q ≡ true)
no_failures-file_under name (true, x) (s, []) h = (refl, refl)
no_failures-file_under name (true, x) (s, f ∷ fs) h = cc
no_failures-file_under name (false, x) (s, f) h = cc

length-file_under :
    (name : String) (o : Bool × Option Str) (q : List String × List Fail)
    → length (file_under name o q).0 + length (file_under name o q).1
      ≡ suc (length q.0 + length q.1)
length-file_under name (true, x) (s, f) = omega arith
length-file_under name (false, x) (s, f) = omega arith

module _ {Q : Type 0} where
  -- The two ways in which a matcher function accepts a pair of requests.
  abbrev pub Accepts : Option Q → Q → Matcher Q → Type 0
  Accepts r1 r2 m = (m.run r1 r2 ≡ ok none) ⊎ (m.run r1 r2 ≡ ok (some true))

  results-cons :
      (r1 : Option Q) (r2 : Q) (m : Matcher Q) (rest : List (Matcher Q))
      {p : List String × List Fail}
      → get_matchers_results r1 r2 (m ∷ rest) ≡ ok p
      → (o : Bool × Option Str) × (q : List String × List Fail) × (evaluate_matcher m r1 r2 ≡ ok o)
        × (get_matchers_results r1 r2 rest ≡ ok q)
        × (p ≡ file_under m.name o q)
  unfolding get_matchers_results
  results-cons r1 r2 m rest h =
      let (o, eo, h1) = ok_of_bind (evaluate_matcher m r1 r2) _ h in
      let (q, eq, h2) = ok_of_bind (get_matchers_results r1 r2 rest) _ h1 in (o, q, eo, eq, cc h2)

  Accepts-of_evaluate :
      (r1 : Option Q) (r2 : Q) (m : Matcher Q) {s : Option Str}
      → evaluate_matcher m r1 r2 ≡ ok (true, s)
      → Accepts r1 r2 m
  unfolding evaluate_matcher
  Accepts-of_evaluate r1 r2 m h = ground arith

  evaluate_of_Accepts :
      (r1 : Option Q) (r2 : Q) (m : Matcher Q)
      → Accepts r1 r2 m
      → evaluate_matcher m r1 r2 ≡ ok (true, none)
  unfolding evaluate_matcher
  evaluate_of_Accepts r1 r2 m h = ground arith

  no_failures_sound :
      (r1 : Option Q) (r2 : Q) (ms : List (Matcher Q)) (p : List String × List Fail)
      → get_matchers_results r1 r2 ms ≡ ok p
      → no_failures p ≡ true
      → All (Accepts r1 r2) ms
  no_failures_sound r1 r2 [] p h t = tt
  no_failures_sound r1 r2 (m ∷ ms) p h t =
      let (o, q, eo, eq, ep) = results-cons r1 r2 m ms h in
      let (passed, others) = no_failures-file_under m.name o q (rw ep at t) in
      (
        Accepts-of_evaluate r1 r2 m {s = o.1} (rw eo (λ i. ok (passed i, o.1))),
        no_failures_sound r1 r2 ms q eq others,
      )

  results_of_Accepts :
      (r1 : Option Q) (r2 : Q) (ms : List (Matcher Q))
      → All (Accepts r1 r2) ms
      → get_matchers_results r1 r2 ms ≡ ok (map (λ (m : Matcher Q). m.name) ms, [])
  unfolding get_matchers_results
  results_of_Accepts r1 r2 [] a = refl
  results_of_Accepts r1 r2 (m ∷ ms) a =
      rw (evaluate_of_Accepts r1 r2 m a.0, results_of_Accepts r1 r2 ms a.1)

  -- Two requests match exactly when every matcher of the list accepts them, by returning `None` or
  -- a true value; a matcher that asserts, returns a false value or raises prevents it.
  pub requests_match_iff :
      (r1 : Option Q) (r2 : Q) (matchers : List (Matcher Q))
      → (requests_match r1 r2 matchers ≡ ok true) ↔ All (Accepts r1 r2) matchers
  unfolding requests_match
  requests_match_iff r1 r2 matchers = (
    λ h.
        let (p, e, h1) = ok_of_bind (get_matchers_results r1 r2 matchers) _ h in
        no_failures_sound r1 r2 matchers p e (cc h1),
    λ a. rw (results_of_Accepts r1 r2 matchers a),
  )

  -- Each matcher of a comparison that raised nothing is named once, as a success or as a failure.
  results_count :
      (r1 : Option Q) (r2 : Q) (matchers : List (Matcher Q)) (s : List String) (f : List Fail)
      → get_matchers_results r1 r2 matchers ≡ ok (s, f)
      → length s + length f ≡ length matchers
  results_count r1 r2 [] s f h = unfold get_matchers_results in ground arith
  results_count r1 r2 (m ∷ ms) s f h =
      let (o, q, eo, eq, ep) = results-cons r1 r2 m ms h in
      let counted : length q.0 + length q.1 ≡ length ms = results_count r1 r2 ms q.0 q.1 eq in
      let total = λ (p : List String × List Fail). length p.0 + length p.1 in
      ap total ep ∙ (omega (arith, length-file_under m.name o q))
