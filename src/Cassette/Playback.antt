-- ===== src/Cassette/Playback.antt =====
-- Which response `play_response` of vcrmartin/cassette.py plays, and what `__contains__` and
-- `can_play_response_for` promise about it.
use vcrpy.Prelude.{
  Bool, Bool-cases, List, Option, Result, Result-cases, [], ap, arith, err, false, get_elem?, inl,
  inr, not, ok, ok-injective, ok_of_bind, raised, refl, some, some-injective, subst, suc, sym, true,
  unhandled_http_request, zero, ℕ, ◌&&◌, ◌++◌, ◌+◌, ◌<◌, ◌==◌, ◌↔◌, ◌∙◌, ◌∷◌, ◌≡◌, ◌≢◌, ◌⊎◌,
}
use vcrpy.Matching.{requests_match}
use vcrpy.RecordMode.{RecordMode, RecordMode_eq}
use vcrpy.Cassette.PlayCounts.{increment}
use vcrpy.Cassette.Generator.{Gen, done, throws, yields}
use vcrpy.Cassette.{
  Cassette, matching, matching_responses, is_available, any_available, contains,
  can_play_response_for, first_available, mark_played, play_response,
}

module _ {Q P : Type 0} (c : Cassette Q P) (r : Option Q) where
  -- The comparison passes over a stored request: it differs, or it was played and may not repeat.
  abbrev pub Skips : Q → ℕ → Type 0
  Skips q index =
      (requests_match r q c.match_on ≡ ok false)
      ⊎ (requests_match r q c.match_on ≡ ok true) × (is_available c index ≡ false)

  -- Of the interactions, which begin at index `n` of the cassette, the one at index `i` is the
  -- first that matches and may be played, and its response is `p`.
  pub record IsFirstPlayable (n : ℕ) (items : List (Q × P)) (i : ℕ) (p : P) : Type 0 where
    pub place : ℕ
    pub stored : Q
    pub index : i ≡ n + place
    pub found : get_elem? items place ≡ some (stored, p)
    pub matched : requests_match r stored c.match_on ≡ ok true
    pub available : is_available c i ≡ true
    pub earlier :
        (j : ℕ) (q : Q) (p' : P) → j < place → get_elem? items j ≡ some (q, p') → Skips q (n + j)

  abbrev first : ℕ → List (Q × P) → Result (ℕ × P)
  first n items = first_available c (matching c.match_on r n items)

  IsFirstPlayable-here :
      (n : ℕ) (q : Q) (p : P) (items : List (Q × P))
      → requests_match r q c.match_on ≡ ok true
      → is_available c n ≡ true
      → IsFirstPlayable n ((q, p) ∷ items) n p
  IsFirstPlayable-here n q p items m a = record {
    place = 0;
    stored = q;
    index = omega arith;
    found = refl;
    matched = m;
    available = a;
    earlier = λ j q' p' lt e. absurd (omega arith);
  }

  earlier_later :
      (n : ℕ) (q : Q) (p : P) (items : List (Q × P)) (i : ℕ) (p' : P)
      → Skips q n
      → (f : IsFirstPlayable (suc n) items i p') → (j : ℕ) (q' : Q) (p'' : P) → j < suc f.place
      → get_elem? ((q, p) ∷ items) j ≡ some (q', p'')
      → Skips q' (n + j)
  earlier_later n q p items i p' s f zero q' p'' lt e =
      let same : ◌≡◌ {A = Q × P} (q, p) (q', p'') = some-injective _ _ e in
      let moved : n ≡ n + 0 = omega arith in
      subst (Skips q') moved (subst (λ (x : Q × P). Skips x.0 n) same s)
  earlier_later n q p items i p' s f (suc j) q' p'' lt e =
      let below : j < f.place = omega arith in
      let moved : suc n + j ≡ n + suc j = omega arith in
      subst (Skips q') moved (f.earlier j q' p'' below e)

  IsFirstPlayable-later :
      (n : ℕ) (q : Q) (p : P) (items : List (Q × P)) (i : ℕ) (p' : P)
      → Skips q n
      → IsFirstPlayable (suc n) items i p'
      → IsFirstPlayable n ((q, p) ∷ items) i p'
  IsFirstPlayable-later n q p items i p' s f = record {
    place = suc f.place;
    stored = f.stored;
    index = omega (arith, f.index);
    found = f.found;
    matched = f.matched;
    available = f.available;
    earlier = earlier_later n q p items i p' s f;
  }

  first-step :
      (n : ℕ) (q : Q) (p0 : P) (items : List (Q × P)) (i : ℕ) (p : P) (m : Result Bool) (b : Bool)
      → requests_match r q c.match_on ≡ m
      → is_available c n ≡ b
      → (first (suc n) items ≡ ok (i, p) → IsFirstPlayable (suc n) items i p)
      → first n ((q, p0) ∷ items) ≡ ok (i, p)
      → IsFirstPlayable n ((q, p0) ∷ items) i p
  unfolding matching first_available
  first-step n q p0 items i p (ok true) true em eb rest h =
      let same : ◌≡◌ {A = ℕ × P} (n, p0) (i, p) = ok-injective (rw (em, eb) at h) in
      subst (λ (x : ℕ × P). IsFirstPlayable n ((q, p0) ∷ items) x.0 x.1) same
        (IsFirstPlayable-here n q p0 items em eb)
  first-step n q p0 items i p (ok true) false em eb rest h =
      IsFirstPlayable-later n q p0 items i p (inr (em, eb)) (rest (rw (em, eb) at h))
  first-step n q p0 items i p (ok false) b em eb rest h =
      IsFirstPlayable-later n q p0 items i p (inl em) (rest (rw em at h))
  first-step n q p0 items i p (err e) b em eb rest h = let stopped = rw em at h in cc stopped

  first_sound :
      (n : ℕ) (items : List (Q × P)) (i : ℕ) (p : P)
      → first n items ≡ ok (i, p)
      → IsFirstPlayable n items i p
  first_sound n [] i p h = unfold matching first_available in cc h
  first_sound n ((q, p0) ∷ items) i p h =
      first-step n q p0 items i p (requests_match r q c.match_on) (is_available c n) refl refl
        (first_sound (suc n) items i p) h

  skip_later :
      (n : ℕ) (q0 : Q) (p0 : P) (items : List (Q × P)) (k : ℕ)
      → ((j : ℕ) (q' : Q) (p' : P)
          → j < suc k
          → get_elem? ((q0, p0) ∷ items) j ≡ some (q', p')
          → Skips q' (n + j))
      → (j : ℕ) (q' : Q) (p' : P) → j < k
      → get_elem? items j ≡ some (q', p')
      → Skips q' (suc n + j)
  skip_later n q0 p0 items k skip j q' p' lt e =
      let moved : n + suc j ≡ suc n + j = omega arith in
      subst (Skips q') moved (skip (suc j) q' p' (omega arith) e)

  first_complete_at :
      (n : ℕ) (items : List (Q × P)) (i : ℕ) (p : P) (k : ℕ) (q : Q)
      → i ≡ n + k
      → get_elem? items k ≡ some (q, p)
      → requests_match r q c.match_on ≡ ok true
      → is_available c i ≡ true
      → ((j : ℕ) (q' : Q) (p' : P) → j < k → get_elem? items j ≡ some (q', p') → Skips q' (n + j))
      → first n items ≡ ok (i, p)
  unfolding matching first_available
  first_complete_at n [] i p k q ei ef em ea skip = cc
  first_complete_at n ((q0, p0) ∷ items) i p zero q ei ef em ea skip =
      let same : ◌≡◌ {A = Q × P} (q, p) (q0, p0) = sym (some-injective _ _ ef) in
      let here : i ≡ n = omega arith in
      let matched = subst (λ (x : Q × P). requests_match r x.0 c.match_on ≡ ok true) same em in
      let available = subst (λ j. is_available c j ≡ true) here ea in
      rw (matched, available) (cc (here, same))
  first_complete_at n ((q0, p0) ∷ items) i p (suc k) q ei ef em ea skip =
      let later =
        first_complete_at (suc n) items i p k q (omega arith) ef em ea
          (skip_later n q0 p0 items k skip) in
      let moved : n + 0 ≡ n = omega arith in
      elim (subst (Skips q0) moved (skip 0 q0 p0 (omega arith) refl)) [
        | inl differs ↦ rw differs later
        | inr (matched, spent) ↦ rw (matched, spent) later
      ]

  first-of_record :
      {n : ℕ} {items : List (Q × P)} {i : ℕ} {p : P}
      → IsFirstPlayable n items i p
      → first n items ≡ ok (i, p)
  first-of_record {n} {items} {i} {p} f =
      first_complete_at n items i p f.place f.stored f.index f.found f.matched f.available f.earlier

can_play_parts :
    (found : Bool) (mode : RecordMode) (rewound : Bool)
    → (found && not (mode == RecordMode.all) && rewound) ≡ true
    → (found ≡ true) × (mode ≢ RecordMode.all) × (rewound ≡ true)
can_play_parts found mode rewound h = ground arith

module _ {Q P : Type 0} (c : Cassette Q P) (request : Q) where
  -- The state `c'` that playing the response `p` leaves, and which interaction that is.
  abbrev pub Outcome : Option Q → P → Cassette Q P → Type 0
  Outcome r p c' =
      (i : ℕ) × IsFirstPlayable c r 0 c.interactions i p
      × (c' ≡ record c {
        play_counts = increment i c.play_counts;
        played_interactions = c.played_interactions ++ (request, p) ∷ [];
      })

  -- `play_response` returns `p` exactly when, among the stored requests that match the filtered
  -- request, `p` is the response of the first that was not played yet (or of the first of all, if
  -- playback repeats are allowed), and nothing before it raises. The state then changes in two
  -- places: its count goes up by one, and the request as it came goes to the played interactions
  -- together with the response.
  pub play_response_plays_first :
      {r : Option Q} (p : P) (c' : Cassette Q P)
      → c.before_record_request request ≡ ok r
      → (play_response c request ≡ ok (p, c')) ↔ Outcome r p c'
  unfolding play_response
  play_response_plays_first {r} p c' e = (
    λ h.
        let (x, ex, h1) = ok_of_bind (first_available c (matching_responses c request)) _ h in
        let same = ok-injective h1 in
        let sound = first_sound c r 0 c.interactions x.0 x.1 (rw e at ex) in
        subst (λ (y : P × Cassette Q P). Outcome r y.0 y.1) same (x.0, sound, refl),
    λ w. rw (e, first-of_record c r w.1) (cc (w.2)),
  )

  any_first :
      (g : Gen (ℕ × P)) → any_available c g ≡ ok true → (x : ℕ × P) × (first_available c g ≡ ok x)
  unfolding any_available first_available
  any_first done h = cc
  any_first (throws e) h = cc
  any_first (yields (i, p) rest) h = elim (Bool-cases (is_available c i)) [
    | inl free ↦ ((i, p), rw free)
    | inr spent ↦ rw spent (any_first rest (rw spent at h))
  ]

  first_any :
      (g : Gen (ℕ × P)) (x : ℕ × P) → first_available c g ≡ ok x → any_available c g ≡ ok true
  unfolding any_available first_available
  first_any done x h = cc
  first_any (throws e) x h = cc
  first_any (yields (i, p) rest) x h = elim (Bool-cases (is_available c i)) [
    | inl free ↦ rw free
    | inr spent ↦ rw spent (first_any rest x (rw spent at h))
  ]

  not_any_first :
      (g : Gen (ℕ × P))
      → any_available c g ≡ ok false
      → first_available c g ≡ err (raised unhandled_http_request)
  unfolding any_available first_available
  not_any_first done h = refl
  not_any_first (throws e) h = cc
  not_any_first (yields (i, p) rest) h = elim (Bool-cases (is_available c i)) [
    | inl free ↦ (let taken = rw free at h in cc taken)
    | inr spent ↦ rw spent (not_any_first rest (rw spent at h))
  ]

  -- `request in cassette` is true exactly when `play_response` would return a response.
  pub contains_iff_plays :
      (contains c request ≡ ok true)
      ↔ ((p : P) × (c' : Cassette Q P) × (play_response c request ≡ ok (p, c')))
  unfolding contains play_response
  contains_iff_plays = (
    λ h.
        let (x, e) = any_first (matching_responses c request) h in
        (x.1, mark_played c x.0 (request, x.1), rw e),
    λ w.
        let (x, e, _) = ok_of_bind (first_available c (matching_responses c request)) _ w.2 in
        first_any (matching_responses c request) x e,
  )

  -- When `request in cassette` is false, `play_response` raises `UnhandledHTTPRequestError`.
  pub play_response_unhandled :
      contains c request ≡ ok false → play_response c request ≡ err (raised unhandled_http_request)
  unfolding contains play_response
  play_response_unhandled h = rw (not_any_first (matching_responses c request) h)

  -- A request that the filter leaves as it is, or has rewritten already, is played whenever
  -- `can_play_response_for` says so; then the cassette has been loaded and its mode is not `ALL`.
  pub can_play_then_plays :
      {request' : Q}
      → c.before_record_request request ≡ ok (some request')
      → c.before_record_request request' ≡ ok (some request')
      → can_play_response_for c request ≡ ok true
      → ((p : P) × (c' : Cassette Q P) × (play_response c request ≡ ok (p, c')))
        × (c.rewound ≡ true)
        × (c.record_mode ≢ RecordMode.all)
  unfolding can_play_response_for
  can_play_then_plays {request'} e1 e2 h =
      let (found, ec, h1) = ok_of_bind (contains c request') _ (rw e1 at h) in
      let holds = ok-injective h1 in
      let same : contains c request' ≡ contains c request = rw (e1, e2) in
      let (yes_found, mode, loaded) = can_play_parts found c.record_mode c.rewound holds in
      (contains_iff_plays.0 (sym same ∙ ec ∙ ap ok yes_found), loaded, mode)

  -- A response that was played came about so, whatever the filter made of the request.
  pub play_response-Outcome :
      {p : P} {c' : Cassette Q P}
      → play_response c request ≡ ok (p, c')
      → (r : Option Q) × (c.before_record_request request ≡ ok r) × Outcome r p c'
  unfolding play_response
  play_response-Outcome {p} {c'} h = elim (Result-cases (c.before_record_request request)) [
    | inl (r, e) ↦ (r, e, (play_response_plays_first p c' e).0 h)
    | inr (x, e) ↦ (let stopped = rw (e, first_available) at h in cc stopped)
  ]
