-- ===== src/Connection.antt =====
-- vcrmartin/stubs/__init__.py, `class VCRConnection`. The real connection is an interface over a type
-- `W` of states of the network. A call gives back its result and the new state, or the exception
-- that ended it.
pub mod Addresses
pub mod Responses
pub mod Reading
pub mod Streaming
pub mod Playing
pub mod Bypass
pub mod Recording
mod Tests
use vcrpy.Prelude.{
  Bool, List, Option, Result, Str, attribute_error, cannot_overwrite_existing_cassette, err, false,
  if◌then◌else◌, inl, inr, is_some, length, nat_eq, none, ok, raised, some, true, type_error, ◌++◌,
  ◌==◌, ◌>>=◌, ◌||◌, ◌⊎◌, List_eq, ℕ_eq,
}
use vcrpy.RecordMode.{RecordMode, RecordMode_eq, all}
use vcrpy.CaseInsensitiveDict
use vcrpy.CaseInsensitiveDict.{CaseInsensitiveDict, items}
use vcrpy.CaseInsensitiveDict.Headers.{HeaderValue, several, singles, set_header}
use vcrpy.Request.{
  Request, Urllib, Body, HeaderText, create, get_body, set_body, binary, bytearray, sequence, text,
}
use vcrpy.Matchers.Bodies.{body_truth}
use vcrpy.Filters.Responses.{Response}
use vcrpy.Cassette.{
  Cassette, can_play_response_for, play_response, write_protected, filter_request, append,
}
use Addresses.{Endpoint, uri_of, url_of}
use Responses.{RealResponse, VcrResponse, stored_response, vcr_response}

abbrev pub HeaderPairs : Type 0
HeaderPairs = List (Str × HeaderValue HeaderText)

pub record RealConnection (W : Type 0) : Type 0 where
  pub request : W → Str → Str → Body → HeaderPairs → Result W
  pub putrequest : W → Str → Str → Result W
  pub putheader : W → Str → List HeaderText → Result W
  pub send : W → Body → Result W
  pub endheaders : W → Option Body → Result W
  pub close : W → Result W
  pub connect : W → Result W
  pub getresponse : W → Result (RealResponse × W)

abbrev pub Tape : Type 0
Tape = Cassette Request Response

-- `cassette` is what `current_cassette` holds; `vcr_request` is `none` before it is first set;
-- `fake_sock` tells that `_sock` is a `VCRFakeSocket`.
pub record Connection (W : Type 0) : Type 0 where
  pub cassette : Option Tape
  pub vcr_request : Option Request
  pub fake_sock : Bool
  pub world : W

-- `if self.cassette`: a cassette is false when it holds no interaction, by its `__len__`.
unfoldable pub in_use : Option Tape → Option Tape
in_use none = none
in_use (some c) = if nat_eq (length c.interactions) 0 then none else some c

-- self._vcr_request
abbrev pub request_of : {W : Type 0} → Connection W → Result Request
request_of s = elim s.vcr_request [ none ↦ err (raised attribute_error) | some r ↦ ok r ]

-- body + data
unfoldable pub add_bodies : Body → Body → Result Body
add_bodies (Body.text a) (Body.text b) = ok (Body.text (a ++ b))
add_bodies (Body.binary a) (Body.binary b) = ok (Body.binary (a ++ b))
add_bodies (Body.binary a) (bytearray b) = ok (Body.binary (a ++ b))
add_bodies (bytearray a) (Body.binary b) = ok (bytearray (a ++ b))
add_bodies (bytearray a) (bytearray b) = ok (bytearray (a ++ b))
add_bodies (sequence a) (sequence b) = ok (sequence (a ++ b))
add_bodies _ _ = err (raised type_error)

-- body + data if body else data
unfoldable pub extended : Body → Body → Result Body
unfolding add_bodies body_truth
extended body bytes = if body_truth body then add_bodies body bytes else ok bytes

module _ {W : Type 0} (real : RealConnection W) where
  abbrev pub on_world : Connection W → Result W → Result (Connection W)
  on_world s outcome = do w ← outcome; ok (record s { world = w })

  -- if cassette.record_mode == RecordMode.ALL
  abbrev pub when_all : Connection W → Tape → Result W → Result (Connection W)
  when_all s c outcome = if c.record_mode == RecordMode.all then on_world s outcome else ok s

module _ {W : Type 0} (real : RealConnection W) (urllib : Urllib) (endpoint : Endpoint) where
  unfoldable pub request : Connection W → Str → Str → Body → HeaderPairs → Result (Connection W)
  unfolding in_use create
  request s method url body headers = elim (in_use s.cassette) [
    | none ↦ on_world real s (real.request s.world method url body headers)
    | some c ↦ (do
      r ← create urllib method (uri_of endpoint url) body headers
      let s' = record s { vcr_request = some r } in
          if c.record_mode == RecordMode.all
          then on_world real s' (real.request s.world method url body headers)
          else ok (record s' { fake_sock = true }))
  ]

  -- A request that an earlier call set stays; before the first one the attribute is missing, of the
  -- real connection as well.
  unfoldable pub putrequest : Connection W → Str → Str → Result (Connection W)
  unfolding in_use
  putrequest s method url = elim (in_use s.cassette) [
    | none ↦ on_world real s (real.putrequest s.world method url)
    | some c ↦ (do r ← request_of s; when_all real s c (real.putrequest s.world method url))
  ]

module _ {W : Type 0} (real : RealConnection W) where
  unfoldable pub putheader : Connection W → Str → List HeaderText → Result (Connection W)
  unfolding in_use set_header
  putheader s header values = elim (in_use s.cassette) [
    | none ↦ on_world real s (real.putheader s.world header values)
    | some c ↦ (do
      r ← request_of s
      headers ← set_header header (several values) r.headers
      when_all real (record s { vcr_request = some (record r { headers = headers }) }) c
          (real.putheader s.world header values))
  ]

  unfoldable pub send : Connection W → Body → Result (Connection W)
  unfolding in_use get_body extended set_body
  send s bytes = elim (in_use s.cassette) [
    | none ↦ on_world real s (real.send s.world bytes)
    | some c ↦ (do
      r ← request_of s
      body ← get_body r
      longer ← extended body bytes
      r' ← set_body longer r
      when_all real (record s { vcr_request = some r' }) c (real.send s.world bytes))
  ]

  abbrev pub with_message : Option Body → Connection W → Result (Connection W)
  with_message none s = ok s
  with_message (some body) s = do
    r ← request_of s
    r' ← set_body body r
    ok (record s { vcr_request = some r' })

  unfoldable pub endheaders : Connection W → Option Body → Result (Connection W)
  unfolding in_use set_body
  endheaders s message_body = elim (in_use s.cassette) [
    | none ↦ on_world real s (real.endheaders s.world message_body)
    | some c ↦ (do
      s' ← with_message message_body s
      when_all real s' c (real.endheaders s.world message_body))
  ]

  -- Both branches close the real connection.
  unfoldable pub close : Connection W → Result (Connection W)
  close s = on_world real s (real.close s.world)

  -- A cassette that is write-protected, or that can play the request, keeps the connection shut.
  abbrev pub can_play_set : Tape → Option Request → Result Bool
  can_play_set c none = ok false
  can_play_set c (some r) = can_play_response_for c r

  unfoldable pub connect : Connection W → Result (Connection W)
  unfolding in_use
  connect s = elim (in_use s.cassette) [
    | none ↦ on_world real s (real.connect s.world)
    | some c ↦ (do
      plays ← can_play_set c s.vcr_request
      if plays || write_protected c then ok s else on_world real s (real.connect s.world))
  ]

module _ {W : Type 0} (real : RealConnection W) (endpoint : Endpoint) where
  -- The request is sent now, unless the mode `ALL` has sent it already.
  unfoldable pub send_late : Tape → Request → W → Result W
  unfolding get_body items
  send_late c r w = if c.record_mode == RecordMode.all then ok w else (do
    body ← get_body r
    real.request w r.method (url_of endpoint r.uri) body (singles (items r.headers)))

  unfoldable pub fetch : Connection W → Tape → Request → Result (VcrResponse × Connection W)
  unfolding send_late stored_response vcr_response
  fetch s c r = do
    w ← send_late c r s.world
    (received, w') ← real.getresponse w
    c' ← append c r (stored_response received)
    ok (vcr_response (stored_response received), record s { cassette = some c'; world = w' })

  -- if self.cassette.write_protected and self.cassette.filter_request(self._vcr_request): raise
  unfoldable pub is_refused : Tape → Request → Result Bool
  is_refused c r =
      if write_protected c then (do kept ← filter_request c r; ok (is_some kept)) else ok false

  unfoldable pub getresponse_from :
      Connection W → Tape → Request → Result (VcrResponse × Connection W)
  unfolding vcr_response is_refused fetch
  getresponse_from s c r = do
    plays ← can_play_response_for c r
    if plays
        then (do
          (response, c') ← play_response c r
          ok (vcr_response response, record s { cassette = some c' }))
        else (do
          refused ← is_refused c r
          if refused then err (raised cannot_overwrite_existing_cassette) else fetch s c r)

  -- Without a cassette in use, the response is that of the real connection.
  unfoldable pub getresponse : Connection W → Result ((RealResponse ⊎ VcrResponse) × Connection W)
  unfolding in_use getresponse_from
  getresponse s = elim (in_use s.cassette) [
    | none ↦ (do
      (received, w) ← real.getresponse s.world
      ok (inl received, record s { world = w }))
    | some c ↦ (do r ← request_of s; (response, s') ← getresponse_from s c r; ok (inr response, s'))
  ]
