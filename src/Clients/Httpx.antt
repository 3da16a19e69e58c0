-- ===== src/Clients/Httpx.antt =====
-- vcrmartin/stubs/httpx_stubs.py. A cassette is used as soon as it is installed, empty or not, since
-- `current_cassette` is asked itself. Not modelled: the format of older cassettes that
-- `_from_serialized_response` reads too, and `patch.dict` around the reading of a body.
pub mod Recording
pub mod Playing
use vcrpy.Prelude.{
  Bool, Bytes, Error, List, Option, Result, Str, [], assertion_error,
  cannot_overwrite_existing_cassette, err, false, if◌then◌else◌, inl, inr, map, none, ok, raised,
  some, true, ℕ, ◌++◌, ◌>>=◌, ◌∷◌, ◌⊎◌,
}
use vcrpy.Text.Utf8.{decode, encode}
use vcrpy.Dict.{Dict}
use vcrpy.CaseInsensitiveDict.Headers.{HeaderValue, single}
use vcrpy.Request.{Request, Urllib, Body, HeaderText, create, text}
use vcrpy.Filters.Responses.{Response}
use vcrpy.Cassette.{Cassette, can_play_response_for, append, play_response}
use vcrpy.Connection.{Tape}
use vcrpy.Clients.{refuses}
use vcrpy.Clients.Grouping.{Pairs, group_from, from_serialized_headers}

pub record HttpxRequest : Type 0 where
  pub method : Str
  pub url : Str
  -- dict(httpx_request.headers)
  pub headers : Dict Str Str
  pub content : Bytes

-- An `httpx.Response` of the server. `headers` is `headers.raw`; `decoder` tells that it has the
-- attribute `_decoder`, so that its content was read before.
pub record RealReply : Type 0 where
  pub status_code : ℕ
  pub reason_phrase : Str
  pub headers : List (Bytes × Bytes)
  pub content : Bytes
  pub decoder : Bool

-- A response with its request, and the responses that redirected to it with theirs.
pub record Reply : Type 0 where
  pub history : List (HttpxRequest × RealReply)
  pub request : HttpxRequest
  pub response : RealReply

-- An `httpx.Response` that is made of a stored one.
pub record PlayedReply : Type 0 where
  pub status_code : ℕ
  pub reason_phrase : Bytes
  pub headers : Pairs Str
  pub content : Bytes

-- What is used of httpx: the function that is wrapped, the decoder that `Content-Encoding` asks for,
-- the constructor `httpx.Response` of a status, a reason, headers and a content, and the cookies of a
-- client.
pub record Library (W J : Type 0) : Type 0 where
  pub send_single_request : W → HttpxRequest → Result (Reply × W)
  pub decode_content : RealReply → Result Bytes
  pub response : ℕ → Bytes → Pairs Str → Bytes → Result PlayedReply
  pub extract_cookies : J → HttpxRequest → PlayedReply → J

-- `installed` tells whether `current_cassette` holds the cassette; `tasks` are the recordings that
-- `ensure_future` has scheduled, each on the cassette that was installed then. The reply of a task is
-- the object that the caller has, see `touched`.
pub record Session (W J : Type 0) : Type 0 where
  pub cassette : Tape
  pub installed : Bool
  pub jar : J
  pub world : W
  pub tasks : List (Request × Reply)

-- The client: an `AsyncClient`, or a `Client` with or without an event loop that runs.
pub data Client : Type 0 where
  async_client : Client
  sync_client : Bool → Client

-- The decoding of `_transform_headers`.
unfoldable pub decoded_pairs : List (Bytes × Bytes) → Result (Pairs Str)
unfolding decode
decoded_pairs [] = ok []
decoded_pairs ((key, var) ∷ raw) = do
  decoded_key ← decode key
  decoded_var ← decode var
  others ← decoded_pairs raw
  ok ((decoded_key, decoded_var) ∷ others)

unfoldable pub transform_headers : List (Bytes × Bytes) → Result (Dict Str (List Str))
unfolding decoded_pairs group_from
transform_headers raw = do pairs ← decoded_pairs raw; ok (group_from pairs [])

-- body_bytes.decode("utf-8"), or "" where that raises
abbrev pub text_or_empty : Result Str → Str
text_or_empty (ok s) = s
text_or_empty (err e) = []

-- `_make_vcr_request`
unfoldable pub make_vcr_request : Urllib → HttpxRequest → Result Request
unfolding decode create
make_vcr_request urllib r =
    create urllib r.method r.url (Body.text (text_or_empty (decode r.content)))
      (map (λ (h : Str × Str). (h.0, single (HeaderText.text h.1))) r.headers)

module _ {W J : Type 0} (library : Library W J) where
  -- `_from_serialized_response`
  unfoldable pub from_serialized_response : Response → Result PlayedReply
  unfolding encode from_serialized_headers
  from_serialized_response r = do
    reason ← encode r.message
    library.response r.code reason (from_serialized_headers r.headers) r.string

  -- `_to_serialized_response`, which leaves the response with its content decoded.
  unfoldable pub to_serialized_response : RealReply → Result (Response × RealReply)
  unfolding transform_headers
  to_serialized_response r = if r.decoder then err (assertion_error []) else (do
    headers ← transform_headers r.headers
    decoded ← library.decode_content r
    ok (
      record {
        code = r.status_code;
        message = r.reason_phrase;
        headers = headers;
        string = r.content;
      },
      record r { content = decoded; decoder = true },
    ))

  -- A request and a response are serialized and appended.
  unfoldable pub record_one : Tape → Request → RealReply → Result (RealReply × Tape)
  unfolding to_serialized_response
  record_one c vcr_request response = do
    (serialized, response') ← to_serialized_response response
    c' ← append c vcr_request serialized
    ok (response', c')

module _ {W J : Type 0} (library : Library W J) (urllib : Urllib) where
  unfoldable pub record_history : Tape → List (HttpxRequest × RealReply) → Result Tape
  unfolding make_vcr_request record_one
  record_history c [] = ok c
  record_history c ((request, response) ∷ history) = do
    past_vcr_request ← make_vcr_request urllib request
    (_, c') ← record_one library c past_vcr_request response
    record_history c' history

  unfoldable pub final_request :
      List (HttpxRequest × RealReply) → Request → HttpxRequest → Result Request
  unfolding make_vcr_request
  final_request [] vcr_request request = ok vcr_request
  final_request (_ ∷ _) vcr_request request = make_vcr_request urllib request

  -- `_record_responses`
  unfoldable pub record_responses : Tape → Request → Reply → Result (Reply × Tape)
  unfolding record_history record_one final_request
  record_responses c vcr_request reply = do
    c1 ← record_history c reply.history
    vcr_request' ← final_request reply.history vcr_request reply.request
    (response, c2) ← record_one library c1 vcr_request' reply.response
    ok (record reply { response = response }, c2)

  -- `_shared_vcr_send`, with `_play_responses`.
  unfoldable pub shared_vcr_send :
      Tape → HttpxRequest → Result (Request × Option PlayedReply × Tape)
  unfolding make_vcr_request from_serialized_response refuses
  shared_vcr_send c request = do
    vcr_request ← make_vcr_request urllib request
    plays ← can_play_response_for c vcr_request
    if plays
        then (do
          (vcr_response, c') ← play_response c vcr_request
          response ← from_serialized_response library vcr_response
          ok (vcr_request, some response, c'))
        else (do
          refused ← refuses c vcr_request
          if refused
              then err (raised cannot_overwrite_existing_cassette)
              else ok (vcr_request, none, c))

  -- `await _record_responses`, and `_run_async_function`: a loop that runs gets a task, and nobody
  -- waits for it.
  unfoldable pub record_by :
      Client → Session W J → Tape → Request → Reply → Result (Reply × Session W J)
  unfolding record_responses
  record_by (sync_client true) s c vcr_request reply =
      ok (reply, record s { tasks = s.tasks ++ (vcr_request, reply) ∷ [] })
  record_by (sync_client false) s c vcr_request reply = do
    (reply', c') ← record_responses c vcr_request reply
    ok (reply', record s { cassette = c' })
  record_by async_client s c vcr_request reply = do
    (reply', c') ← record_responses c vcr_request reply
    ok (reply', record s { cassette = c' })

  unfoldable pub send_unplayed :
      Client
      → Session W J
      → HttpxRequest
      → Request × Option PlayedReply × Tape
      → Result ((Reply ⊎ PlayedReply) × Session W J)
  unfolding record_by
  send_unplayed client s request (vcr_request, some response, c) = ok (
    inr response,
    record s { cassette = c; jar = library.extract_cookies s.jar request response },
  )
  send_unplayed client s request (vcr_request, none, c) = do
    (reply, w) ← library.send_single_request s.world request
    (reply', s') ← record_by client (record s { world = w }) c vcr_request reply
    ok (inl reply', s')

  -- `_inner_send` of `async_vcr_send` and `sync_vcr_send`.
  unfoldable pub send :
      Client → Session W J → HttpxRequest → Result ((Reply ⊎ PlayedReply) × Session W J)
  unfolding shared_vcr_send send_unplayed
  send client s request =
      if s.installed
      then (do outcome ← shared_vcr_send s.cassette request; send_unplayed client s request outcome)
      else (do
        (reply, w) ← library.send_single_request s.world request
        ok (inl reply, record s { world = w }))

  -- What the end of a task leaves: its exception stays in the task, which nobody asks for it. With
  -- redirections, a task that raises may have recorded some of them; these are left out.
  abbrev pub task_done : Session W J → Result (Reply × Tape) → Option Error × Session W J
  task_done s (err e) = (some e, s)
  task_done s (ok (_, c')) = (none, record s { cassette = c' })

  -- The event loop runs the first task.
  unfoldable pub run_task : Session W J → Option Error × Session W J
  unfolding record_responses
  run_task s = elim s.tasks [
    | [] ↦ (none, s)
    | (vcr_request, reply) ∷ tasks ↦
        task_done (record s { tasks = tasks }) (record_responses s.cassette vcr_request reply)
  ]

-- What the callers have done to the replies that they got, which are those of the tasks.
unfoldable pub touched : {W J : Type 0} → (Reply → Reply) → Session W J → Session W J
touched change s = record s { tasks = map (λ (t : Request × Reply). (t.0, change t.1)) s.tasks }
