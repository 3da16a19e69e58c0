-- ===== src/Clients/Aiohttp/Redirects.antt =====
-- vcrmartin/stubs/aiohttp_stubs.py: the loop of `play_responses` over recorded redirects.
use vcrpy.Prelude.{
  Bool, Bool-cases, List, Option-cases, Result, Result-cases, Run, Str, [], ap, arith, ended, err,
  false, inl, inr, length, map, ok, ok-injective, ok_of_bind, str, subst, suc, zero, ℕ, ◌&&◌, ◌++◌,
  ◌-◌, ◌<◌, ◌∙◌, ◌∷◌, ◌≡◌, List_eq, ℕ_eq,
}
use vcrpy.Request.{Request, Urllib}
use vcrpy.Filters.Responses.{Response}
use vcrpy.Cassette.{play_response, play_count}
use vcrpy.Cassette.BestMatches.{Match, find_requests_with_most_matches}
use vcrpy.Cassette.Counting.{
  IsConsistent, play_response-IsConsistent, play_response-Counted, play_count-le,
}
use vcrpy.Connection.{Tape}
use vcrpy.Clients.Aiohttp.{
  Library, MockResponse, next_round, follow_redirects, play_responses, choose, first_of, get_all,
  is_redirect, stub_of, build_response,
}

-- How many interactions may still be played.
abbrev plays_left : Tape → ℕ
plays_left c = length c.interactions - play_count c

-- A call comes to an end: it returns or raises.
abbrev pub Ends : {A : Type 0} → Run A → Type 0
Ends {A} run = (outcome : Result A) × (run ≡ ended outcome)

module _ {W J : Type 0} (library : Library W J) (urllib : Urllib) where
  next_round-play :
      (c : Tape) (response : MockResponse) (location : Str) {m : MockResponse} {c' : Tape}
      → next_round library urllib c response location ≡ ok (m, c')
      → (r : Request) × (p : Response) × (play_response c r ≡ ok (p, c'))
  unfolding next_round
  next_round-play c response location h =
      let (next_url, _, h1) = ok_of_bind (library.join response.url location) _ h in
      let (stub, _, h2) = ok_of_bind (stub_of urllib response next_url) _ h1 in
      let (matches, _, h3) = ok_of_bind (find_requests_with_most_matches c stub) _ h2 in
      let (chosen, _, h4) =
        ok_of_bind (choose c stub (map (λ (x : Match Request). x.stored_request) matches)) _ h3 in
      let (played, e, h5) = ok_of_bind (play_response c chosen) _ h4 in
      (
        chosen,
        played.0,
        subst (λ (x : Tape). play_response c chosen ≡ ok (played.0, x))
            (ap (λ (x : MockResponse × Tape). x.1) (ok-injective h5)) e,
      )

  follow_redirects-Ends :
      (n : ℕ) (allow : Bool) (c : Tape) (response : MockResponse) (history : List MockResponse)
      → c.allow_playback_repeats ≡ false
      → IsConsistent c
      → plays_left c < n
      → Ends (follow_redirects library urllib n allow c response history)
  unfolding follow_redirects
  follow_redirects-Ends zero allow c response history repeats w enough = absurd (omega arith)
  follow_redirects-Ends (suc n) allow c response history repeats w enough =
      elim (Bool-cases (allow && is_redirect response)) [
        | inr final ↦ (ok (response, history, c), rw (follow_redirects, final))
        | inl redirect ↦
            elim (Option-cases (first_of (get_all (str "location") response.headers))) [
              | inl missing ↦ (ok (response, history, c), rw (follow_redirects, redirect, missing))
              | inr (location, found) ↦
                  elim (Result-cases (next_round library urllib c response location)) [
                    | inr (x, e) ↦ (err x, rw (follow_redirects, redirect, found, e))
                    | inl ((m, c'), e) ↦
                        let (r, p, plays) = next_round-play c response location e in
                        let w' = play_response-IsConsistent c r w plays in
                        let counted = play_response-Counted c r plays in
                        let repeats' : c'.allow_playback_repeats ≡ false = counted.2 ∙ repeats in
                        let same : length c'.interactions ≡ length c.interactions =
                          ap (λ (l : List (Request × Response)). length l) counted.1 in
                        let (outcome, ends) =
                          follow_redirects-Ends n allow c' m (history ++ response ∷ []) repeats' w'
                            (omega (arith, counted, play_count-le c' repeats' w', same)) in
                        (outcome, rw (follow_redirects, redirect, found, e) ends)
                  ]
            ]
      ]

  -- Playing a request of aiohttp comes to its end whatever redirects are recorded, on a cassette
  -- without playback repeats: each round plays an interaction that was not played yet, so that as
  -- many rounds as there are interactions are enough.
  pub play_responses-Ends :
      (c : Tape) (r : Request) (allow_redirects : Bool)
      → c.allow_playback_repeats ≡ false
      → IsConsistent c
      → Ends (play_responses library urllib (length c.interactions) c r allow_redirects)
  unfolding play_responses
  play_responses-Ends c r allow_redirects repeats w = elim (Result-cases (play_response c r)) [
    | inr (x, e) ↦ (err x, rw e)
    | inl ((p, c'), e) ↦
        let counted = play_response-Counted c r e in
        let repeats' : c'.allow_playback_repeats ≡ false = counted.2 ∙ repeats in
        let w' = play_response-IsConsistent c r w e in
        let same : length c'.interactions ≡ length c.interactions =
          ap (λ (l : List (Request × Response)). length l) counted.1 in
        let (outcome, ends) =
          follow_redirects-Ends (length c.interactions) allow_redirects c' (build_response r p) []
            repeats' w' (omega (arith, counted, play_count-le c' repeats' w', same)) in
        (outcome, rw e ends)
  ]
