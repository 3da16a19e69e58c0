-- ===== src/Cassette/Refinement.antt =====
-- vcrmartin/cassette.py against the reel of Cassette/Reel: every sequence of calls gets the replies
-- that the reel gives.
use vcrpy.Prelude.{
  Bool, Bool-cases, List, Option, Result, [], arith, err, false, inl, inr, length, none, ok, raised,
  refl, some, suc, true, unhandled_http_request, ℕ, ◌++◌, ◌+◌, ◌<◌, ◌==◌, ◌∙◌, ◌∷◌, ◌≡◌, ◌≤◌, ◌⊎◌,
  ℕ_eq,
}
use vcrpy.Matching.{requests_match}
use vcrpy.Cassette.PlayCounts.{Counter, count, increment, count-increment, count-nil, count-beyond}
use vcrpy.Cassette.Appending.{Keeps, append-of_Keeps}
use vcrpy.Cassette.Counting.{
  IsConsistent, append-IsConsistent, play_response-IsConsistent, rewind-IsConsistent,
}
use vcrpy.Cassette.Reel.{
  Reel, Operation, plays, appends, rewinds, Reply, take_first, unplayed, failed, keep_head, played,
  returned, IsTotal, reel_of, reel_run, reel_step, taken,
}
use vcrpy.Cassette.{
  Cassette, Settings, play_response, append, rewind, first_available, matching, mark_played,
}

module _ {Q P : Type 0} where
  abbrev pub reply_of : Cassette Q P → Result (P × Cassette Q P) → Reply P × Cassette Q P
  reply_of c (ok (p, c')) = (played p, c')
  reply_of c (err e) = (failed e, c)

  abbrev pub reply_of_append : Cassette Q P → Result (Cassette Q P) → Reply P × Cassette Q P
  reply_of_append c (ok c') = (returned, c')
  reply_of_append c (err e) = (failed e, c)

  -- A call of a method, and a sequence of calls.
  abbrev pub call : Operation Q P → Cassette Q P → Reply P × Cassette Q P
  call (appends q p) c = reply_of_append c (append c q p)
  call (plays q) c = reply_of c (play_response c q)
  call rewinds c = (returned, rewind c)

  abbrev pub calls : List (Operation Q P) → Cassette Q P → List (Reply P)
  calls [] c = []
  calls (o ∷ operations) c = let (reply, c') = call o c in reply ∷ calls operations c'

  unplayed_before :
      (k : Counter) (i n : ℕ) (items : List (Q × P))
      → i < n
      → unplayed (increment i k) n items ≡ unplayed k n items
  unplayed_before k i n [] h = refl
  unplayed_before k i n (x ∷ items) h =
      ground (arith, count-increment i n k, unplayed_before k i (suc n) items)

  unplayed-append :
      (k : Counter) (n : ℕ) (items : List (Q × P)) (x : Q × P)
      → count k (n + length items) ≡ 0
      → unplayed k n (items ++ x ∷ []) ≡ unplayed k n items ++ x ∷ []
  unplayed-append k n [] x h = ground arith
  unplayed-append k n (y ∷ items) x h = ground (arith, unplayed-append k (suc n) items x)

  unplayed-nil : (n : ℕ) (items : List (Q × P)) → unplayed [] n items ≡ items
  unplayed-nil n [] = refl
  unplayed-nil n (x ∷ items) = ground (arith, count-nil n, unplayed-nil (suc n) items)

module _ {Q P : Type 0} (c : Cassette Q P) (r : Q) where
  -- What the loop of `play_response` finds from index `n` on.
  abbrev Takes : ℕ → List (Q × P) → Option (P × List (Q × P)) → Type 0
  Takes n items none =
      first_available c (matching c.match_on (some r) n items) ≡ err (raised unhandled_http_request)
  Takes n items (some (p, rest)) =
      (i : ℕ) × (first_available c (matching c.match_on (some r) n items) ≡ ok (i, p))
      × (n ≤ i)
      × (unplayed (increment i c.play_counts) n items ≡ rest)

module _ {Q P : Type 0} (c : Cassette Q P) (r : Q) (matches : Q → Bool)
    (repeats : c.allow_playback_repeats ≡ false)
    (total : (q : Q) → requests_match (some r) q c.match_on ≡ ok (matches q)) where
  first_skips :
      (n : ℕ) (q : Q) (p : P) (items : List (Q × P))
      → (matches q ≡ false) ⊎ ((count c.play_counts n == 0) ≡ false)
      → first_available c (matching c.match_on (some r) n ((q, p) ∷ items))
        ≡ first_available c (matching c.match_on (some r) (suc n) items)
  unfolding matching first_available
  first_skips n q p items skip = ground (arith, total q, repeats)

  -- An item that the loop skips stays on the reel, or was not on it.
  Takes-left :
      (n : ℕ) (q : Q) (p : P) (items : List (Q × P)) (o : Option (P × List (Q × P)))
      → (count c.play_counts n == 0) ≡ true
      → matches q ≡ false
      → Takes c r (suc n) items o
      → Takes c r n ((q, p) ∷ items) (keep_head (q, p) o)
  Takes-left n q p items none unplayed_here differs h = first_skips n q p items (inl differs) ∙ h
  Takes-left n q p items (some (p', rest)) unplayed_here differs (i, h, later, e) = (
    i,
    first_skips n q p items (inl differs) ∙ h,
    omega arith,
    ground (arith, count-increment i n c.play_counts),
  )

  Takes-spent :
      (n : ℕ) (q : Q) (p : P) (items : List (Q × P)) (o : Option (P × List (Q × P)))
      → (count c.play_counts n == 0) ≡ false
      → Takes c r (suc n) items o
      → Takes c r n ((q, p) ∷ items) o
  Takes-spent n q p items none spent h = first_skips n q p items (inr spent) ∙ h
  Takes-spent n q p items (some (p', rest)) spent (i, h, later, e) = (
    i,
    first_skips n q p items (inr spent) ∙ h,
    omega arith,
    ground (arith, count-increment i n c.play_counts),
  )

  Takes-here :
      (n : ℕ) (q : Q) (p : P) (items : List (Q × P))
      → (count c.play_counts n == 0) ≡ true
      → matches q ≡ true
      → Takes c r n ((q, p) ∷ items) (some (p, unplayed c.play_counts (suc n) items))
  unfolding matching first_available
  Takes-here n q p items free same = (
    n,
    ground (arith, total q, repeats),
    omega arith,
    ground
        (arith, count-increment n n c.play_counts, unplayed_before c.play_counts n (suc n) items),
  )

  first_available-take_first :
      (n : ℕ) (items : List (Q × P))
      → Takes c r n items (take_first matches (unplayed c.play_counts n items))
  first_available-take_first n [] = unfold matching first_available in refl
  first_available-take_first n ((q, p) ∷ items) =
      let later = first_available-take_first (suc n) items in
      let left = unplayed c.play_counts (suc n) items in
      elim (Bool-cases (count c.play_counts n == 0)) [
        | inr spent ↦ rw spent (Takes-spent n q p items (take_first matches left) spent later)
        | inl free ↦ elim (Bool-cases (matches q)) [
          | inl same ↦ rw (free, same) (Takes-here n q p items free same)
          | inr differs ↦
              rw (free, differs)
                (Takes-left n q p items (take_first matches left) free differs later)
        ]
      ]

module _ {Q P : Type 0} {s : Settings Q P} (t : IsTotal s)
    (repeats : s.allow_playback_repeats ≡ false) where
  -- A call and a step of the reel give the same reply and agree again.
  abbrev Agrees : Cassette Q P → Reply P × Cassette Q P → Reply P × Reel Q P → Type 0
  Agrees c (reply, c') (reply', reel) =
      (reply ≡ reply') × (reel_of c' ≡ reel) × IsConsistent c' × (c'.settings ≡ s)

  play-Agrees :
      (c : Cassette Q P) (q : Q) (o : Option (P × List (Q × P)))
      → c.settings ≡ s
      → IsConsistent c
      → Takes c (t.f q) 0 c.interactions o
      → Agrees c (call (plays q) c) (taken (reel_of c) o)
  play-Agrees c q none e w h =
      let request : c.before_record_request q ≡ ok (some (t.f q)) = rw e (t.filters q) in
      let result : play_response c q ≡ err (raised unhandled_http_request) =
        unfold play_response in rw (request, h) refl in
      rw result (refl, refl, w, e)
  play-Agrees c q (some (p, rest)) e w (i, h, _, left) =
      let request : c.before_record_request q ≡ ok (some (t.f q)) = rw e (t.filters q) in
      let result : play_response c q ≡ ok (p, mark_played c i (q, p)) =
        unfold play_response in rw (request, h) refl in
      rw result (
        refl,
        unfold mark_played in cc left,
        play_response-IsConsistent c q w result,
        unfold mark_played in e,
      )

  append-Agrees :
      (c : Cassette Q P) (q : Q) (p : P)
      → c.settings ≡ s
      → IsConsistent c
      → Agrees c (call (appends q p) c) (reel_step t (appends q p) (reel_of c))
  append-Agrees c q p e w =
      let keeps : Keeps c q p (t.f q) (t.g p) = (rw e (t.filters q), rw e (t.answers p)) in
      let result = append-of_Keeps c q p keeps in
      rw result (
        refl,
        cc (
            unplayed-append c.play_counts 0 c.interactions (t.f q, t.g p)
              (count-beyond (length c.interactions) (0 + length c.interactions) c.play_counts
                (omega arith) w.keys)),
        append-IsConsistent c q p w result,
        e,
      )

  call-Agrees :
      (o : Operation Q P) (c : Cassette Q P)
      → c.settings ≡ s
      → IsConsistent c
      → Agrees c (call o c) (reel_step t o (reel_of c))
  call-Agrees (appends q p) c e w = append-Agrees c q p e w
  call-Agrees (plays q) c e w =
      play-Agrees c q (take_first (t.matches (t.f q)) (unplayed c.play_counts 0 c.interactions)) e w
        (first_available-take_first c (t.f q) (t.matches (t.f q)) (rw e repeats)
          (λ q'. rw e (t.compares (t.f q) q')) 0 c.interactions)
  call-Agrees rewinds c e w = (
    refl,
    unfold rewind in cc (unplayed-nil 0 c.interactions),
    rewind-IsConsistent c w,
    unfold rewind in e,
  )

  -- A consistent cassette without playback repeats implements the reel: whatever sequence of
  -- appends, plays and rewinds is called, the replies are those of the reel that holds its
  -- interactions and, as left, those that were not played. The callbacks are to let everything
  -- through, and no matcher is to raise.
  pub calls_refine_reel :
      (c : Cassette Q P) (operations : List (Operation Q P))
      → c.settings ≡ s
      → IsConsistent c
      → calls operations c ≡ reel_run t operations (reel_of c)
  calls_refine_reel c [] e w = refl
  calls_refine_reel c (o ∷ operations) e w =
      let (same, next, w', e') = call-Agrees o c e w in
      cc (same, next, calls_refine_reel (call o c).1 operations e' w')
