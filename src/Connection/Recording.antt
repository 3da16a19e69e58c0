-- ===== src/Connection/Recording.antt =====
-- What an exchange, `request` and then `getresponse`, does where the cassette cannot play it and is
-- not write-protected.
use vcrpy.Prelude.{
  Str, ap, false, inr, ok, ok-injective, ok_of_bind, some, sym, ◌==◌, ◌∙◌, ◌≡◌, List_eq, ℕ_eq,
}
use vcrpy.RecordMode.{RecordMode, RecordMode_eq}
use vcrpy.CaseInsensitiveDict.{empty, items}
use vcrpy.CaseInsensitiveDict.Headers.{headers_from, singles}
use vcrpy.Request.{Request, Urllib, Body, get_body, create, encode_body, consume}
use vcrpy.Filters.Responses.{Response}
use vcrpy.Cassette.{can_play_response_for, write_protected}
use vcrpy.Cassette.Appending.{Keeps, with_interaction, append-of_Keeps}
use vcrpy.Connection.Addresses.{Endpoint, uri_of, url_of, url_of-uri_of, is_absolute}
use vcrpy.Connection.Responses.{RealResponse, stored_response, vcr_response}
use vcrpy.Connection.Bypass.{exchange}
use vcrpy.Connection.Playing.{IsExchange, prepared, after_request}
use vcrpy.Connection.{
  Connection, RealConnection, HeaderPairs, Tape, getresponse_from, is_refused, fetch, send_late,
}

created_fields :
    (urllib : Urllib) (method uri : Str) (body : Body) (headers : HeaderPairs) (r : Request)
    → create urllib method uri body headers ≡ ok r
    → (r.method ≡ method) × (r.uri ≡ uri)
unfolding create
created_fields urllib method uri body headers r h =
    let (parts, _, h1) = ok_of_bind (urllib.urlparse uri) _ h in
    let (stored, _, h2) = ok_of_bind (encode_body (consume body)) _ h1 in
    let (kept, _, h3) = ok_of_bind (headers_from headers empty) _ h2 in
    let same = ok-injective h3 in
    (ap (λ (q : Request). q.method) (sym same), ap (λ (q : Request). q.uri) (sym same))

-- The real connection answers the request: it is sent once and received once.
pub record IsAnswered {W : Type 0} (real : RealConnection W) (w : W) (method url : Str)
    (r : Request) (received : RealResponse) (w' : W) : Type 0 where
  pub body : Body
  pub has_body : get_body r ≡ ok body
  pub sent : W
  pub sends : real.request w method url body (singles (items r.headers)) ≡ ok sent
  pub receives : real.getresponse sent ≡ ok (received, w')

module _ {W : Type 0} (real : RealConnection W) (urllib : Urllib) (endpoint : Endpoint) where
  fetched :
      (s : Connection W) (c : Tape) (method url : Str) (r : Request) (received : RealResponse)
      (w' : W) (request' : Request) (response' : Response)
      → (c.record_mode == RecordMode.all) ≡ false
      → r.method ≡ method
      → url_of endpoint r.uri ≡ url
      → IsAnswered real s.world method url r received w'
      → Keeps c r (stored_response received) request' response'
      → fetch real endpoint s c r
        ≡ ok (
          vcr_response (stored_response received),
          record s { cassette = some (with_interaction c request' response'); world = w' },
        )
  unfolding fetch send_late
  fetched s c method url r received w' request' response' not_all m u a k =
      let sends : real.request s.world r.method (url_of endpoint r.uri) a.body
            (singles (items r.headers))
          ≡ ok a.sent =
        (λ i. real.request s.world (m i) (u i) a.body (singles (items r.headers))) ∙ a.sends in
      rw (not_all, a.has_body, sends, a.receives, append-of_Keeps c r (stored_response received) k)

  unplayed :
      (s : Connection W) (c : Tape) (r : Request)
      → can_play_response_for c r ≡ ok false
      → write_protected c ≡ false
      → getresponse_from real endpoint s c r ≡ fetch real endpoint s c r
  unfolding getresponse_from is_refused
  unplayed s c r h free = rw (h, free)

  -- A request with a relative address, under a cassette in use whose mode is not `ALL`, which cannot
  -- play it and is free to record it, and whose callbacks keep both sides of it: if the server
  -- answers, it is sent once, with the method and the selector that the caller gave; what is received
  -- goes back to the caller, and what the callbacks make of the request and the response stands at
  -- the end of the cassette, which has to be saved.
  pub unplayed_is_recorded :
      (s : Connection W) (c : Tape) (method url : Str) (body : Body) (headers : HeaderPairs)
      (r request' : Request) (response' : Response) (received : RealResponse) (w' : W)
      → is_absolute url ≡ false
      → IsExchange urllib endpoint s c method url body headers r
      → can_play_response_for c r ≡ ok false
      → write_protected c ≡ false
      → IsAnswered real s.world method url r received w'
      → Keeps c r (stored_response received) request' response'
      → exchange real urllib endpoint s method url body headers
        ≡ ok (
          inr (vcr_response (stored_response received)),
          record (prepared s r) {
            cassette = some (with_interaction c request' response');
            world = w';
          },
        )
  unplayed_is_recorded s c method url body headers r request' response' received w' relative w h
        free a k =
      let (m, u) = created_fields urllib method (uri_of endpoint url) body headers r w.made in
      let selector : url_of endpoint r.uri ≡ url =
        ap (url_of endpoint) u ∙ url_of-uri_of endpoint url relative in
      let done =
        unplayed (prepared s r) c r h free
        ∙ fetched (prepared s r) c method url r received w' request' response' w.not_all m selector
            a k in
      after_request real urllib endpoint s c method url body headers r w ∙ rw done
