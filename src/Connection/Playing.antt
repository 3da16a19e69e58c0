-- ===== src/Connection/Playing.antt =====
-- What an exchange, `request` and then `getresponse`, does with a cassette in use: it plays, it is
-- refused, or it is recorded.
use vcrpy.Prelude.{
  Bool, Result, Str, ap, cannot_overwrite_existing_cassette, err, false, inr, ok, raised, refl,
  some, subst, sym, true, ◌==◌, ◌>>=◌, ◌∙◌, ◌≡◌, ◌⊎◌, List_eq, ℕ_eq,
}
use vcrpy.RecordMode.{RecordMode, RecordMode_eq}
use vcrpy.Request.{Request, Urllib, Body, create}
use vcrpy.Cassette.{can_play_response_for, play_response, write_protected}
use vcrpy.Filters.Responses.{Response}
use vcrpy.Cassette.Playback.{can_play_then_plays}
use vcrpy.Cassette.WriteProtection.{write_protected-ne_all, kept_of_filter_request}
use vcrpy.Connection.Addresses.{Endpoint, uri_of}
use vcrpy.Connection.Responses.{RealResponse, VcrResponse, vcr_response}
use vcrpy.Connection.Bypass.{exchange}
use vcrpy.Connection.{
  Connection, RealConnection, HeaderPairs, Tape, in_use, request, getresponse, getresponse_from,
  is_refused,
}

-- After `request`: nothing was sent.
abbrev pub prepared : {W : Type 0} → Connection W → Request → Connection W
prepared s r = record s { vcr_request = some r; fake_sock = true }

-- What an exchange on a write-protected cassette that filters nothing away may end with.
abbrev pub Ending :
    {W : Type 0}
    → Connection W
    → Tape
    → Request
    → Bool
    → Result ((RealResponse ⊎ VcrResponse) × Connection W)
    → Type 0
Ending s c r true outcome =
    (response : Response) × (c' : Tape) × (play_response c r ≡ ok (response, c'))
    × (outcome
        ≡ ok (
          inr (vcr_response response),
          record s { vcr_request = some r; fake_sock = true; cassette = some c' },
        ))
Ending s c r false outcome = outcome ≡ err (raised cannot_overwrite_existing_cassette)

-- The cassette `c` is in use, its mode is not `ALL`, and the arguments make the request `r`.
pub record IsExchange {W : Type 0} (urllib : Urllib) (endpoint : Endpoint) (s : Connection W)
    (c : Tape) (method url : Str) (body : Body) (headers : HeaderPairs) (r : Request) : Type 0 where
  pub used : in_use s.cassette ≡ some c
  pub not_all : (c.record_mode == RecordMode.all) ≡ false
  pub made : create urllib method (uri_of endpoint url) body headers ≡ ok r

module _ {W : Type 0} (real : RealConnection W) (urllib : Urllib) (endpoint : Endpoint) where
  request_prepares :
      (s : Connection W) (c : Tape) (method url : Str) (body : Body) (headers : HeaderPairs)
      (r : Request)
      → IsExchange urllib endpoint s c method url body headers r
      → request real urllib endpoint s method url body headers ≡ ok (prepared s r)
  unfolding request
  request_prepares s c method url body headers r w = rw (request, w.used, w.made, w.not_all)

  getresponse_in_use :
      (s : Connection W) (c : Tape) (r : Request)
      → in_use s.cassette ≡ some c
      → getresponse real endpoint (prepared s r) ≡ (do
        (response, s') ← getresponse_from real endpoint (prepared s r) c r
        ok (inr response, s'))
  unfolding getresponse
  getresponse_in_use s c r used = rw (getresponse, used)

  pub after_request :
      (s : Connection W) (c : Tape) (method url : Str) (body : Body) (headers : HeaderPairs)
      (r : Request)
      → IsExchange urllib endpoint s c method url body headers r
      → exchange real urllib endpoint s method url body headers ≡ (do
        (response, s') ← getresponse_from real endpoint (prepared s r) c r
        ok (inr response, s'))
  after_request s c method url body headers r w =
      ap (λ outcome. outcome >>= getresponse real endpoint)
        (request_prepares s c method url body headers r w)
      ∙ getresponse_in_use s c r w.used

  refused_or_played :
      (s : Connection W) (c : Tape) (r kept : Request) (plays : Bool)
      → write_protected c ≡ true
      → c.before_record_request r ≡ ok (some kept)
      → c.before_record_request kept ≡ ok (some kept)
      → can_play_response_for c r ≡ ok plays
      → Ending s c r plays (do
        (response, s') ← getresponse_from real endpoint (prepared s r) c r
        ok (inr response, s'))
  unfolding getresponse_from is_refused
  refused_or_played s c r kept true protected k again h =
      let ((p, c', e), _, _) = can_play_then_plays c r k again h in (p, c', e, rw (h, e) refl)
  refused_or_played s c r kept false protected k again h =
      rw (h, protected, kept_of_filter_request c r k)

  -- A write-protected cassette that holds something, and whose filter keeps the request and leaves
  -- what it has kept as it is: the exchange returns the response that `play_response` plays, or raises
  -- `CannotOverwriteExistingCassetteException`, as `can_play_response_for` decides; the network stays
  -- as it was, and nothing is recorded.
  pub write_protected_stays_offline :
      (s : Connection W) (c : Tape) (method url : Str) (body : Body) (headers : HeaderPairs)
      (r kept : Request) (plays : Bool)
      → in_use s.cassette ≡ some c
      → create urllib method (uri_of endpoint url) body headers ≡ ok r
      → write_protected c ≡ true
      → c.before_record_request r ≡ ok (some kept)
      → c.before_record_request kept ≡ ok (some kept)
      → can_play_response_for c r ≡ ok plays
      → Ending s c r plays (exchange real urllib endpoint s method url body headers)
  write_protected_stays_offline s c method url body headers r kept plays used made protected k again
        h =
      let w : IsExchange urllib endpoint s c method url body headers r = record {
        used = used;
        not_all = write_protected-ne_all c protected;
        made = made;
      } in
      subst (Ending s c r plays) (sym (after_request s c method url body headers r w))
        (refused_or_played s c r kept plays protected k again h)
