-- ===== src/Cassette/Appending.antt =====
-- The outcomes of `append` of vcrmartin/cassette.py.
use vcrpy.Prelude.{
  Option, [], inl, inr, none, ok, ok-injective, ok_of_bind, some, sym, true, ◌++◌, ◌∷◌, ◌≡◌, ◌⊎◌,
}
use vcrpy.Cassette.{Cassette, append, append_request, append_response}

module _ {Q P : Type 0} (c : Cassette Q P) where
  -- The request and the response that the callbacks let through, if they do.
  abbrev pub Keeps : Q → P → Q → P → Type 0
  Keeps request response request' response' =
      (c.before_record_request request ≡ ok (some request'))
      × (c.before_record_response response ≡ ok (some response'))

  abbrev pub with_interaction : Q → P → Cassette Q P
  with_interaction request response = record c {
    interactions = c.interactions ++ (request, response) ∷ [];
    dirty = true;
  }

  -- What an `append` that raises nothing has done: nothing, or it stored what was let through.
  abbrev pub Appended : Q → P → Cassette Q P → Type 0
  Appended request response c' =
      (c' ≡ c)
      ⊎ ((request' : Q) × (response' : P) × Keeps request response request' response'
          × (c' ≡ with_interaction request' response'))

  pub append-of_Keeps :
      (request : Q) (response : P) {request' : Q} {response' : P}
      → Keeps request response request' response'
      → append c request response ≡ ok (with_interaction request' response')
  unfolding append
  append-of_Keeps request response k = rw (k.0, k.1)

  Appended-response :
      (request : Q) (response : P) (q : Q) (p : Option P) {c' : Cassette Q P}
      → c.before_record_request request ≡ ok (some q)
      → c.before_record_response response ≡ ok p
      → append_response c q p ≡ c'
      → Appended request response c'
  unfolding append_response
  Appended-response request response q none eq ep e = inl (sym e)
  Appended-response request response q (some p) eq ep e = inr (q, p, (eq, ep), sym e)

  Appended-request :
      (request : Q) (response : P) (q : Option Q) {c' : Cassette Q P}
      → c.before_record_request request ≡ ok q
      → append_request c q response ≡ ok c'
      → Appended request response c'
  unfolding append_request
  Appended-request request response none eq e = inl (sym (ok-injective e))
  Appended-request request response (some q) eq e =
      let (p, ep, e1) = ok_of_bind (c.before_record_response response) _ e in
      Appended-response request response q p eq ep (ok-injective e1)

  pub append_cases :
      (request : Q) (response : P) {c' : Cassette Q P}
      → append c request response ≡ ok c'
      → Appended request response c'
  unfolding append
  append_cases request response h =
      let (q, eq, h1) = ok_of_bind (c.before_record_request request) _ h in
      Appended-request request response q eq h1
