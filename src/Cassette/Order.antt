-- ===== src/Cassette/Order.antt =====
-- The order of playback in vcrmartin/cassette.py: a request that is made again and again gets the
-- recorded responses one after another.
use vcrpy.Prelude.{
  Bool, Bool-cases, List, Option, Result, Result-cases, [], arith, err, false, inl, inr, keep,
  length, map, ok, ok-injective, ok_of_bind, raised, refl, subst, suc, sym, true,
  unhandled_http_request, zero, ℕ, ◌<◌, ◌>>=◌, ◌∷◌, ◌≡◌, ◌≤◌, ℕ_eq,
}
use vcrpy.Matching.{Matcher, requests_match}
use vcrpy.Cassette.PlayCounts.{count-increment, count-nil}
use vcrpy.Cassette.Generator.{Gen, done, throws, yields, gather}
use vcrpy.Cassette.{
  Cassette, matching, is_available, yield_if, first_available, mark_played, matching_responses,
  play_response, or_unhandled, responses_of, rewind,
}

module _ {P : Type 0} where
  -- The indices rise, from `n` on.
  abbrev IsIncreasing : ℕ → List (ℕ × P) → Type 0
  IsIncreasing n [] = Unit
  IsIncreasing n ((i, p) ∷ l) = (n ≤ i) × IsIncreasing (suc i) l

  IsIncreasing-mono : (n m : ℕ) (l : List (ℕ × P)) → n ≤ m → IsIncreasing m l → IsIncreasing n l
  IsIncreasing-mono n m [] h w = tt
  IsIncreasing-mono n m ((i, p) ∷ l) h w = (omega arith, w.1)

  gather-yields :
      (x : ℕ × P) (g : Gen (ℕ × P)) {l : List (ℕ × P)}
      → gather (yields x g) ≡ ok l
      → (l' : List (ℕ × P)) × (gather g ≡ ok l') × (l ≡ x ∷ l')
  unfolding gather
  gather-yields x g h =
      let (l', e, h1) = ok_of_bind (gather g) _ h in (l', e, sym (ok-injective h1))

  IsIncreasing-yield_if :
      (m : Result Bool) (n : ℕ) (p : P) (g : Gen (ℕ × P)) (l : List (ℕ × P))
      → ((k : List (ℕ × P)) → gather g ≡ ok k → IsIncreasing (suc n) k)
      → gather (yield_if m (n, p) g) ≡ ok l
      → IsIncreasing n l
  IsIncreasing-yield_if (ok true) n p g l ih h =
      let (l', e, same) = gather-yields (n, p) g h in
      subst (IsIncreasing n) (sym same) (omega arith, ih l' e)
  IsIncreasing-yield_if (ok false) n p g l ih h =
      IsIncreasing-mono n (suc n) l (omega arith) (ih l h)
  IsIncreasing-yield_if (err e) n p g l ih h = unfold gather in cc h

  abbrev snds : List (ℕ × P) → List P
  snds = map (λ (x : ℕ × P). x.1)

  or_unhandled-eq_ok : (l ps : List P) → or_unhandled l ≡ ok ps → l ≡ ps
  or_unhandled-eq_ok [] ps h = cc
  or_unhandled-eq_ok (p ∷ l) ps h = ok-injective h

  -- `for` loops that return at the first item meet a head, or the end.
  abbrev first_of : List (ℕ × P) → Result (ℕ × P)
  first_of [] = err (raised unhandled_http_request)
  first_of (x ∷ l) = ok x

matching-IsIncreasing :
    {Q P : Type 0} (match_on : List (Matcher Q)) (r : Option Q) (n : ℕ) (items : List (Q × P))
    (l : List (ℕ × P))
    → gather (matching match_on r n items) ≡ ok l
    → IsIncreasing n l
unfolding matching
matching-IsIncreasing match_on r n [] l h =
    unfold gather in subst (IsIncreasing n) (ok-injective h) tt
matching-IsIncreasing match_on r n ((q, p) ∷ items) l h =
    IsIncreasing-yield_if (requests_match r q match_on) n p (matching match_on r (suc n) items) l
      (matching-IsIncreasing match_on r (suc n) items) h

module _ {Q P : Type 0} (c : Cassette Q P) where
  -- The found interactions that may still be played.
  abbrev unplayed : List (ℕ × P) → List (ℕ × P)
  unplayed = keep (λ (x : ℕ × P). is_available c x.0)

  first_available-gather :
      (g : Gen (ℕ × P)) (l : List (ℕ × P))
      → gather g ≡ ok l
      → first_available c g ≡ first_of (unplayed l)
  unfolding first_available
  first_available-gather done l h =
      unfold gather in
      subst (λ k. err (raised unhandled_http_request) ≡ first_of (unplayed k)) (ok-injective h) refl
  first_available-gather (throws e) l h = unfold gather in cc h
  first_available-gather (yields (i, p) g) l h =
      let (l', e, same) = gather-yields (i, p) g h in
      rw same (ground (arith, first_available-gather g l' e))

  module _ (repeats : c.allow_playback_repeats ≡ false) (i : ℕ) (played : Q × P) where
    unplayed_later :
        (n : ℕ) (l : List (ℕ × P))
        → i < n
        → IsIncreasing n l
        → keep (λ (x : ℕ × P). is_available (mark_played c i played) x.0) l ≡ unplayed l
    unfolding mark_played
    unplayed_later n [] h w = refl
    unplayed_later n ((j, p) ∷ l) h w =
        ground
          (arith, unplayed_later (suc j) l (omega arith) w.1, count-increment i j c.play_counts)

    -- Marking the first that may be played leaves the others.
    unplayed-mark_played :
        (n : ℕ) (l rest : List (ℕ × P)) (p : P)
        → IsIncreasing n l
        → unplayed l ≡ (i, p) ∷ rest
        → keep (λ (x : ℕ × P). is_available (mark_played c i played) x.0) l ≡ rest
    unfolding mark_played
    unplayed-mark_played n [] rest p w h = cc h
    unplayed-mark_played n ((j, p') ∷ l) rest p w h = elim (Bool-cases (is_available c j)) [
      | inl free ↦ ground (arith, count-increment i j c.play_counts, unplayed_later (suc j) l)
      | inr spent ↦
          ground
            (arith, count-increment i j c.play_counts, unplayed-mark_played (suc j) l rest p w.1)
    ]

module _ {Q P : Type 0} where
  -- The same request made `n` times.
  unfoldable pub play_times : ℕ → Cassette Q P → Q → Result (List P × Cassette Q P)
  play_times zero c request = ok ([], c)
  play_times (suc n) c request = do
    (response, c1) ← play_response c request
    (rest, c2) ← play_times n c1 request
    ok (response ∷ rest, c2)

  play_first :
      (c : Cassette Q P) (request : Q) (found : List (ℕ × P)) (i : ℕ) (p : P) (rest : List (ℕ × P))
      → gather (matching_responses c request) ≡ ok found
      → unplayed c found ≡ (i, p) ∷ rest
      → play_response c request ≡ ok (p, mark_played c i (request, p))
  unfolding play_response
  play_first c request found i p rest e h =
      rw (first_available-gather c (matching_responses c request) found e, h)

  play_none :
      (c : Cassette Q P) (request : Q) (found : List (ℕ × P))
      → gather (matching_responses c request) ≡ ok found
      → unplayed c found ≡ []
      → play_response c request ≡ err (raised unhandled_http_request)
  unfolding play_response
  play_none c request found e h =
      rw (first_available-gather c (matching_responses c request) found e, h)

  matching_responses-mark_played :
      (c : Cassette Q P) (request : Q) (i : ℕ) (played : Q × P)
      → matching_responses (mark_played c i played) request ≡ matching_responses c request
  unfolding matching_responses mark_played
  matching_responses-mark_played c request i played = refl

  gather-matching_responses-IsIncreasing :
      (c : Cassette Q P) (request : Q) (found : List (ℕ × P))
      → gather (matching_responses c request) ≡ ok found
      → IsIncreasing 0 found
  unfolding matching_responses
  gather-matching_responses-IsIncreasing c request found h =
      elim (Result-cases (c.before_record_request request)) [
        | inl (r, e) ↦ matching-IsIncreasing c.match_on r 0 c.interactions found (rw e at h)
        | inr (x, e) ↦ (let stopped = rw e at h in unfold gather in cc stopped)
      ]

  -- The repeated request gets these responses, in this order, and then no more.
  abbrev pub PlaysThrough : Cassette Q P → Q → List P → Type 0
  PlaysThrough c request ps =
      (c' : Cassette Q P) × (play_times (length ps) c request ≡ ok (ps, c'))
      × (play_response c' request ≡ err (raised unhandled_http_request))

  unplayed-PlaysThrough :
      (c : Cassette Q P) (request : Q) (found left : List (ℕ × P))
      → c.allow_playback_repeats ≡ false
      → gather (matching_responses c request) ≡ ok found
      → unplayed c found ≡ left
      → PlaysThrough c request (snds left)
  unfolding play_times mark_played
  unplayed-PlaysThrough c request found [] repeats e h = (c, refl, play_none c request found e h)
  unplayed-PlaysThrough c request found ((i, p) ∷ rest) repeats e h =
      let c1 = mark_played c i (request, p) in
      let increasing = gather-matching_responses-IsIncreasing c request found e in
      let (c', plays, ends) =
        unplayed-PlaysThrough c1 request found rest repeats
          (rw (matching_responses-mark_played c request i (request, p)) e)
          (unplayed-mark_played c repeats i (request, p) 0 found rest p increasing h) in
      (c', rw (play_first c request found i p rest e h, plays), ends)

  unplayed-rewind : (c : Cassette Q P) (l : List (ℕ × P)) → unplayed (rewind c) l ≡ l
  unfolding rewind
  unplayed-rewind c [] = refl
  unplayed-rewind c ((i, p) ∷ l) = ground (arith, count-nil i, unplayed-rewind c l)

  -- Without playback repeats, a request that is made again and again after `rewind` gets all the
  -- responses that `responses_of` lists for it, each once and in the order of the cassette; the
  -- next call raises `UnhandledHTTPRequestError`.
  pub rewound_plays_responses_of :
      (c : Cassette Q P) (request : Q) (ps : List P)
      → c.allow_playback_repeats ≡ false
      → responses_of c request ≡ ok ps
      → PlaysThrough (rewind c) request ps
  unfolding responses_of rewind
  rewound_plays_responses_of c request ps repeats h =
      let (found, e, h1) = ok_of_bind (gather (matching_responses c request)) _ h in
      subst (PlaysThrough (rewind c) request) (or_unhandled-eq_ok (snds found) ps h1) (
        unplayed-PlaysThrough (rewind c) request found found repeats
          (unfold matching_responses in e) (unplayed-rewind c found))
