-- ===== src/Cassette/Reel.antt =====
-- What a cassette of vcrmartin/cassette.py without playback repeats is, seen from outside: a reel of
-- interactions, of which each play takes the first that matches off those that are left. Here is the
-- specification; Cassette/Refinement shows that the class implements it.
use vcrpy.Prelude.{
  Bool, Error, List, Option, [], if◌then◌else◌, none, ok, raised, some, suc, unhandled_http_request,
  ℕ, ◌++◌, ◌==◌, ◌∷◌, ◌≡◌, ℕ_eq,
}
use vcrpy.Matching.{requests_match}
use vcrpy.Cassette.PlayCounts.{Counter, count}
use vcrpy.Cassette.{Cassette, Settings}

pub record Reel (Q P : Type 0) : Type 0 where
  pub whole : List (Q × P)
  pub left : List (Q × P)

pub data Operation (Q P : Type 0) : Type 0 where
  appends : Q → P → Operation Q P
  plays : Q → Operation Q P
  rewinds : Operation Q P

pub data Reply (P : Type 0) : Type 0 where
  returned : Reply P
  played : P → Reply P
  failed : Error → Reply P

module _ {Q P : Type 0} where
  abbrev pub keep_head : Q × P → Option (P × List (Q × P)) → Option (P × List (Q × P))
  keep_head x none = none
  keep_head x (some (p, rest)) = some (p, x ∷ rest)

  -- The response of the first that passes the test, and the others.
  abbrev pub take_first : (Q → Bool) → List (Q × P) → Option (P × List (Q × P))
  take_first matches [] = none
  take_first matches ((q, p) ∷ rest) =
      if matches q then some (p, rest) else keep_head (q, p) (take_first matches rest)

  abbrev pub taken : Reel Q P → Option (P × List (Q × P)) → Reply P × Reel Q P
  taken s none = (failed (raised unhandled_http_request), s)
  taken s (some (p, rest)) = (played p, record s { left = rest })

  -- The interactions from index `n` on that were not played.
  abbrev pub unplayed : Counter → ℕ → List (Q × P) → List (Q × P)
  unplayed k n [] = []
  unplayed k n (x ∷ items) =
      if count k n == 0 then x ∷ unplayed k (suc n) items else unplayed k (suc n) items

  abbrev pub reel_of : Cassette Q P → Reel Q P
  reel_of c = record { whole = c.interactions; left = unplayed c.play_counts 0 c.interactions }

-- Callbacks that let everything through, as `f` and `g` rewrite it, and matchers that never raise.
pub record IsTotal {Q P : Type 0} (s : Settings Q P) : Type 0 where
  pub f : Q → Q
  pub g : P → P
  pub matches : Q → Q → Bool
  pub filters : (q : Q) → s.before_record_request q ≡ ok (some (f q))
  pub answers : (p : P) → s.before_record_response p ≡ ok (some (g p))
  pub compares : (q q' : Q) → requests_match (some q) q' s.match_on ≡ ok (matches q q')

module _ {Q P : Type 0} {s : Settings Q P} (t : IsTotal s) where
  abbrev pub reel_step : Operation Q P → Reel Q P → Reply P × Reel Q P
  reel_step (appends q p) reel = (
    returned,
    record { whole = reel.whole ++ (t.f q, t.g p) ∷ []; left = reel.left ++ (t.f q, t.g p) ∷ [] },
  )
  reel_step (plays q) reel = taken reel (take_first (t.matches (t.f q)) reel.left)
  reel_step rewinds reel = (returned, record reel { left = reel.whole })

  abbrev pub reel_run : List (Operation Q P) → Reel Q P → List (Reply P)
  reel_run [] reel = []
  reel_run (o ∷ operations) reel =
      let (reply, reel') = reel_step o reel in reply ∷ reel_run operations reel'
