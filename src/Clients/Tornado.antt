-- ===== src/Clients/Tornado.antt =====
-- vcrmartin/stubs/tornado_stubs.py. A fetch hands its response to a callback, at once or when the real
-- client has it. The key "url" that only this stub stores in a response is left out.
use vcrpy.Prelude.{
  Bool, Bytes, List, Option, Result, Str, [], err, false, if◌then◌else◌, map, name_error, none, ok,
  raised, some, str, ℕ, ◌++◌, ◌==◌, ◌>>=◌, ◌||◌, ◌∷◌, List_eq, ℕ_eq,
}
use vcrpy.Text.{lower}
use vcrpy.Dict.{Dict}
use vcrpy.CaseInsensitiveDict.Headers.{single}
use vcrpy.Request.{Request, Urllib, Body, HeaderText, create}
use vcrpy.Filters.Responses.{Response}
use vcrpy.Cassette.{play_response, can_play_response_for, append}
use vcrpy.Connection.{Tape, request}
use vcrpy.Clients.{refuses}
use vcrpy.Clients.Grouping.{Pairs, from_serialized_headers}

-- `has_body_producer` and the two others tell that the attribute is not `None`.
pub record FetchRequest : Type 0 where
  pub method : Str
  pub url : Str
  pub body : Body
  pub headers : Pairs Str
  pub user_agent : Str
  pub has_body_producer : Bool
  pub has_header_callback : Bool
  pub has_streaming_callback : Bool

-- An `HTTPResponse` of the real client, with the lists of `get_list`.
pub record RealResponse : Type 0 where
  pub code : ℕ
  pub reason : Str
  pub headers : Dict Str (List Str)
  pub body : Bytes

-- What the callback is given: a response that was played, or an error with the code 599.
pub data Delivery : Type 0 where
  replay : ℕ → Str → Pairs Str → Bytes → Delivery
  unsupported : Delivery
  refusal : Delivery

-- A fetch has called the callback, or has started the real client with `new_callback`, which refers
-- to `vcr_request` if that was set.
pub data Fetch : Type 0 where
  delivered : Delivery → Fetch
  started : Option Request → Fetch

-- headers.setdefault("User-Agent", request.user_agent), if there is one
abbrev pub has_name : Str → Pairs Str → Bool
has_name name [] = false
has_name name ((key, value) ∷ rest) = lower key == lower name || has_name name rest

abbrev pub with_user_agent : Str → Pairs Str → Pairs Str
with_user_agent [] headers = headers
with_user_agent (c ∷ agent) headers =
    if has_name (str "User-Agent") headers
    then headers
    else headers ++ (str "User-Agent", c ∷ agent) ∷ []

abbrev pub unsupported_call : FetchRequest → Bool
unsupported_call request =
    request.has_body_producer || request.has_header_callback || request.has_streaming_callback

unfoldable pub fetch_request : Urllib → FetchRequest → Result Request
unfolding create
fetch_request urllib request = create urllib request.method request.url request.body (
    map (λ (h : Str × Str). (h.0, single (HeaderText.text h.1)))
      (with_user_agent request.user_agent request.headers))

unfoldable pub replayed : Response → Delivery
unfolding from_serialized_headers
replayed r = replay r.code r.message (from_serialized_headers r.headers) r.string

-- The part of `new_fetch_impl` that asks the cassette.
unfoldable pub ask_cassette : Tape → Request → Result (Fetch × Tape)
unfolding replayed refuses
ask_cassette c vcr_request = do
  plays ← can_play_response_for c vcr_request
  if plays
      then (do
        (vcr_response, c') ← play_response c vcr_request
        ok (delivered (replayed vcr_response), c'))
      else (do
        refused ← refuses c vcr_request
        ok (if refused then delivered refusal else started (some vcr_request), c))

-- `new_fetch_impl`; `none` is a `current_cassette` that holds nothing.
unfoldable pub new_fetch_impl : Urllib → Option Tape → FetchRequest → Result (Fetch × Option Tape)
unfolding fetch_request ask_cassette
new_fetch_impl urllib none request = ok (started none, none)
new_fetch_impl urllib (some c) request =
    if unsupported_call request then ok (delivered unsupported, some c) else (do
      vcr_request ← fetch_request urllib request
      (outcome, c') ← ask_cassette c vcr_request
      ok (outcome, some c'))

-- `new_callback`, once the real client has the response: it is appended, and handed on. Without a
-- cassette the variables `cassette` and `vcr_request` have no value.
unfoldable pub new_callback :
    Option Tape → Option Request → RealResponse → Result (RealResponse × Option Tape)
new_callback (some c) (some vcr_request) response = do
  c' ← append c vcr_request (record {
    code = response.code;
    message = response.reason;
    headers = response.headers;
    string = response.body;
  })
  ok (response, some c')
new_callback _ _ response = err (raised name_error)
