-- ===== src/Clients/Aiohttp.antt =====
-- vcrmartin/stubs/aiohttp_stubs.py. Headers of aiohttp are pairs, read without regard to case. URLs
-- are texts; the libraries yarl and http.cookies and the session of aiohttp are parameters.
pub mod Redirects
pub mod Recording
mod Tests
use vcrpy.Prelude.{
  Bool, Bytes, List, Option, Result, Run, Str, [], cannot_overwrite_existing_cassette, concat,
  ended, err, false, if◌then◌else◌, inl, inr, is_some, leb, map, none, ok, raised, runs_on, some,
  str, suc, then_run, true, zero, ℕ, ◌&&◌, ◌++◌, ◌==◌, ◌>>=◌, ◌∷◌, ◌⊎◌, List_eq, ℕ_eq,
}
use vcrpy.Text.{lower}
use vcrpy.Dict.{Dict, get}
use vcrpy.CaseInsensitiveDict.{items, empty}
use vcrpy.CaseInsensitiveDict.Headers.{HeaderValue, single, several}
use vcrpy.Request.{Request, Urllib, Body, HeaderText, create, null, get_body, text}
use vcrpy.Filters.Responses.{Response}
use vcrpy.Cassette.{play_response, can_play_response_for, append}
use vcrpy.Cassette.BestMatches.{Match, find_requests_with_most_matches}
use vcrpy.Connection.{Tape}
use vcrpy.Clients.{refuses}
use vcrpy.Clients.Grouping.{Pairs, group_from, from_serialized_headers, pairs_with}

-- A `MockClientResponse`; its `_history` is the list that it stands behind.
pub record MockResponse : Type 0 where
  pub method : Str
  pub url : Str
  pub request_headers : Pairs HeaderText
  pub status : ℕ
  pub reason : Str
  pub body : Bytes
  pub headers : Pairs Str

-- `request_info` and the other fields of a response of the real client; `chunks` is what its content
-- yields.
pub record RealResponse : Type 0 where
  pub info_method : Str
  pub info_url : Str
  pub info_headers : Pairs HeaderText
  pub status : ℕ
  pub reason : Str
  pub headers : Pairs Str
  pub chunks : List Bytes

pub record Reply : Type 0 where
  pub history : List RealResponse
  pub response : RealResponse

-- The arguments of `ClientSession._request` that are read; `headers` are those that
-- `_prepare_headers` returns, and `data` is `kwargs.get("data", kwargs.get("json"))`.
pub record Arguments : Type 0 where
  pub method : Str
  pub url : Str
  pub params : Pairs Str
  pub headers : Pairs HeaderText
  pub auth : Option Str
  pub data_or_json : Body
  pub allow_redirects : Bool

-- The session of aiohttp with its cookies `J`, and `W`, the network.
pub record Library (W J : Type 0) : Type 0 where
  pub real_request : W → Arguments → Result (Reply × W)
  -- URL(url).join(URL(location))
  pub join : Str → Str → Result Str
  -- `_build_url_with_params`
  pub url_with_params : Str → Pairs Str → Result Str
  -- `_build_cookie_header`, of the cookies of the session and the header `COOKIE`
  pub build_cookie_header : J → Option HeaderText → Str → Option Str
  -- update_cookies(response.cookies, response.url), of the headers `SET_COOKIE`
  pub update_cookies : J → List Str → Str → J

pub record Session (W J : Type 0) : Type 0 where
  pub cassette : Tape
  pub installed : Bool
  pub jar : J
  pub world : W

module _ {V : Type 0} where
  -- headers.getall(name, ())
  unfoldable pub get_all : Str → Pairs V → List V
  unfolding lower
  get_all name [] = []
  get_all name ((key, value) ∷ rest) =
      if lower key == lower name then value ∷ get_all name rest else get_all name rest

  -- headers[name], or `None` where it is missing
  abbrev pub first_of : List V → Option V
  first_of [] = none
  first_of (value ∷ values) = some value

  -- headers.pop(name, None)
  unfoldable pub without : Str → Pairs V → Pairs V
  unfolding lower
  without name [] = []
  without name ((key, value) ∷ rest) =
      if lower key == lower name then without name rest else (key, value) ∷ without name rest

  -- headers[name] = value
  unfoldable pub set_pair : Str → V → Pairs V → Pairs V
  unfolding lower without
  set_pair name value [] = (name, value) ∷ []
  set_pair name value ((key, old) ∷ rest) =
      if lower key == lower name
      then (name, value) ∷ without name rest
      else (key, old) ∷ set_pair name value rest

  -- `_deserialize_headers`
  unfoldable pub deserialize_headers : List (Str × HeaderValue V) → Pairs V
  deserialize_headers [] = []
  deserialize_headers ((k, single v) ∷ rest) = (k, v) ∷ deserialize_headers rest
  deserialize_headers ((k, several vs) ∷ rest) = pairs_with k vs (deserialize_headers rest)

-- `_serialize_headers`
unfoldable pub serialize_headers : {V : Type 0} → Pairs V → Dict Str (List V)
unfolding group_from
serialize_headers headers = group_from headers []

-- headers["AUTHORIZATION"] = auth.encode(), unless it is `None`
unfoldable pub with_auth : Option Str → Pairs HeaderText → Pairs HeaderText
unfolding set_pair
with_auth none headers = headers
with_auth (some auth) headers = set_pair (str "AUTHORIZATION") (HeaderText.text auth) headers

-- headers[hdrs.COOKIE] = cookie_header, if there is one
unfoldable pub with_cookie : Option Str → Pairs HeaderText → Pairs HeaderText
unfolding set_pair
with_cookie none headers = headers
with_cookie (some []) headers = headers
with_cookie (some (c ∷ cookie)) headers =
    set_pair (str "Cookie") (HeaderText.text (c ∷ cookie)) headers

-- `build_response`; a body without "string" is the empty one.
unfoldable pub build_response : Request → Response → MockResponse
unfolding deserialize_headers items from_serialized_headers
build_response r response = record {
  method = r.method;
  url = r.uri;
  request_headers =
      deserialize_headers (map (λ (h : Str × HeaderText). (h.0, single h.1)) (items r.headers));
  status = response.code;
  reason = response.message;
  body = response.string;
  headers = from_serialized_headers response.headers;
}

-- 300 <= response.status <= 399
abbrev pub is_redirect : MockResponse → Bool
is_redirect r = leb 300 r.status && leb r.status 399

-- for vcr_request, *_ in vcr_requests: if cassette.can_play_response_for(vcr_request): break
unfoldable pub choose : Tape → Request → List Request → Result Request
choose c chosen [] = ok chosen
choose c chosen (r ∷ rest) = do
  plays ← can_play_response_for c r
  elim plays [ true ↦ ok r | false ↦ choose c r rest ]

module _ (urllib : Urllib) where
  -- The request that the cassette is asked for after a redirect.
  unfoldable pub stub_of : MockResponse → Str → Result Request
  unfolding create serialize_headers
  stub_of response next_url = create urllib (str "GET") next_url null (
      map (λ (h : Str × List HeaderText). (h.0, several h.1))
        (serialize_headers response.request_headers))

module _ {W J : Type 0} (library : Library W J) (urllib : Urllib) where
  -- A round of the loop of `play_responses`, to a response with the header "location".
  unfoldable pub next_round : Tape → MockResponse → Str → Result (MockResponse × Tape)
  unfolding stub_of choose build_response
  next_round c response location = do
    next_url ← library.join response.url location
    stub ← stub_of urllib response next_url
    matches ← find_requests_with_most_matches c stub
    chosen ← choose c stub (map (λ (m : Match Request). m.stored_request) matches)
    (vcr_response, c') ← play_response c chosen
    ok (build_response chosen vcr_response, c')

  -- The loop, for at most `n` rounds: the last response, its history, and the cassette.
  unfoldable pub follow_redirects :
      ℕ
      → Bool
      → Tape
      → MockResponse
      → List MockResponse
      → Run (MockResponse × List MockResponse × Tape)
  unfolding next_round
  follow_redirects zero allow_redirects c response history =
      if allow_redirects
        && is_redirect response
        && is_some (first_of (get_all (str "location") response.headers))
      then runs_on
      else ended (ok (response, history, c))
  follow_redirects (suc n) allow_redirects c response history =
      elim (allow_redirects && is_redirect response) [
        | false ↦ ended (ok (response, history, c))
        | true ↦ elim (first_of (get_all (str "location") response.headers)) [
          | none ↦ ended (ok (response, history, c))
          | some location ↦ then_run (ended (next_round c response location)) (λ outcome.
              follow_redirects n allow_redirects outcome.1 outcome.0 (history ++ response ∷ []))
        ]
      ]

  unfoldable pub play_responses :
      ℕ → Tape → Request → Bool → Run (MockResponse × List MockResponse × Tape)
  unfolding follow_redirects build_response
  play_responses n c vcr_request allow_redirects =
      then_run (ended (play_response c vcr_request)) (λ outcome.
        follow_redirects n allow_redirects outcome.1 (build_response vcr_request outcome.0) [])

-- `record_response` is an async generator: a call makes one, and it runs as it is iterated.
pub record Recorder : Type 0 where
  pub vcr_request : Request
  pub response : RealResponse

-- What a generator does that is iterated to its end, without a `ClientConnectionError`.
unfoldable pub exhaust : Tape → Recorder → Result Tape
unfolding serialize_headers
exhaust c r = append c r.vcr_request (record {
  code = r.response.status;
  message = r.response.reason;
  headers = serialize_headers r.response.headers;
  string = concat r.response.chunks;
})

-- Request(aiohttp_request.method, str(aiohttp_request.url), body, _serialize_headers(...))
unfoldable pub request_of_info : Urllib → RealResponse → Body → Result Request
unfolding create serialize_headers
request_of_info urllib response body = create urllib response.info_method response.info_url body (
    map (λ (h : Str × List HeaderText). (h.0, several h.1))
      (serialize_headers response.info_headers))

-- The body of the first request is recorded, the others follow a redirect.
unfoldable pub past_recorders : Urllib → Body → List RealResponse → Result (List Recorder)
unfolding request_of_info
past_recorders urllib body [] = ok []
past_recorders urllib body (past_response ∷ history) = do
  past_request ← request_of_info urllib past_response body
  others ← past_recorders urllib null history
  ok (record { vcr_request = past_request; response = past_response } ∷ others)

unfoldable pub last_request : Urllib → Request → Reply → Result Request
unfolding request_of_info
last_request urllib vcr_request reply = elim reply.history [
  | [] ↦ ok vcr_request
  | _ ∷ _ ↦ request_of_info urllib reply.response null
]

-- `record_responses`: the generators that it makes, in their order.
unfoldable pub record_responses : Urllib → Request → Reply → Result (List Recorder)
unfolding past_recorders last_request get_body
record_responses urllib vcr_request reply = do
  body ← get_body vcr_request
  past ← past_recorders urllib body reply.history
  final ← last_request urllib vcr_request reply
  ok (past ++ record { vcr_request = final; response = reply.response } ∷ [])

module _ {W J : Type 0} (library : Library W J) (urllib : Urllib) where
  -- URL(url) if not params else _build_url_with_params(url, params)
  abbrev pub with_params : Str → Pairs Str → Result Str
  with_params url [] = ok url
  with_params url (p ∷ params) = library.url_with_params url (p ∷ params)

  -- The lines that make `vcr_request` of the arguments.
  unfoldable pub request_of : J → Arguments → Result Request
  unfolding get_all with_auth with_cookie without serialize_headers create
  request_of jar a =
      let authorized = with_auth a.auth a.headers in
      let c_header = first_of (get_all (str "Cookie") authorized) in
      let headers = without (str "Cookie") authorized in
      (do
        request_url ← with_params a.url a.params
        let sent = with_cookie (library.build_cookie_header jar c_header request_url) headers in
            create urllib a.method request_url a.data_or_json
              (map (λ (h : Str × List HeaderText). (h.0, several h.1)) (serialize_headers sent)))

  -- The cookies of the redirects, and then those of the response.
  abbrev pub update_all : J → List MockResponse → J
  update_all jar [] = jar
  update_all jar (r ∷ rest) =
      update_all (library.update_cookies jar (get_all (str "Set-Cookie") r.headers) r.url) rest

  abbrev pub played_session :
      Session W J → MockResponse × List MockResponse × Tape → (MockResponse ⊎ Reply) × Session W J
  unfolding get_all
  played_session s (response, history, c) =
      (inl response, record s { cassette = c; jar = update_all s.jar (history ++ response ∷ []) })

  -- The end of `new_request`: the generators are made, and dropped.
  unfoldable pub send_and_record :
      Session W J → Arguments → Request → Result ((MockResponse ⊎ Reply) × Session W J)
  unfolding record_responses
  send_and_record s a vcr_request = do
    (reply, w) ← library.real_request s.world a
    _ ← record_responses urllib vcr_request reply
    ok (inr reply, record s { world = w })

  unfoldable pub answer :
      ℕ → Session W J → Arguments → Request → Bool → Run ((MockResponse ⊎ Reply) × Session W J)
  unfolding play_responses send_and_record refuses
  answer n s a vcr_request true =
      then_run (play_responses library urllib n s.cassette vcr_request a.allow_redirects)
        (λ outcome. ended (ok (played_session s outcome)))
  answer n s a vcr_request false = ended (do
    refused ← refuses s.cassette vcr_request
    if refused
        then err (raised cannot_overwrite_existing_cassette)
        else send_and_record s a vcr_request)

  -- `new_request`
  unfoldable pub new_request :
      ℕ → Session W J → Arguments → Run ((MockResponse ⊎ Reply) × Session W J)
  unfolding request_of answer
  new_request n s a =
      if s.installed
      then then_run (ended (request_of s.jar a)) (λ vcr_request.
        then_run (ended (can_play_response_for s.cassette vcr_request))
          (λ plays. answer n s a vcr_request plays))
      else ended
          (do (reply, w) ← library.real_request s.world a; ok (inr reply, record s { world = w }))
