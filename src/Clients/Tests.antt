-- ===== src/Clients/Tests.antt =====
-- Concrete cases for the stubs of vcrmartin/stubs. The network counts what it was sent, and a client
-- counts the cookies that it stored.
use vcrpy.Prelude.{
  Bool-cases, Str, [], ap, assertion_error, false, inl, inr, length, list_eq, list_eq_iff, none, ok,
  ok-injective, refl, some, str, sym, true, ℕ, ◌++◌, ◌+◌, ◌∙◌, ◌∷◌, ◌≡◌, ◌≢◌, List_eq, ℕ_eq,
  Option_eq,
}
use vcrpy.RecordMode.{RecordMode}
use vcrpy.Samples.{small_urllib, parse, settings_of}
use vcrpy.Text.Utf8.{encode, decode}
use vcrpy.Dict.{insert, get}
use vcrpy.CaseInsensitiveDict.Headers.{headers_from}
use vcrpy.Request.{Request, create, Body}
use vcrpy.Cassette.{
  new, contains, matching_responses, matching, any_available, can_play_response_for,
  write_protected, append, append_request, append_response,
}
use vcrpy.Connection.{Tape}
use vcrpy.Cassette.Appending.{with_interaction}
use vcrpy.Clients.Grouping.{Pairs, values_of, group_from, from_serialized_headers}
use vcrpy.Clients.Httpx
use vcrpy.Clients.Httpx.{
  touched, HttpxRequest, RealReply, PlayedReply, Client, sync_client, async_client, send, Library,
  Session, make_vcr_request, Reply, decoded_pairs, final_request, from_serialized_response,
  record_history, record_one, record_responses, run_task, to_serialized_response, transform_headers,
}
use vcrpy.Text.{lower}
use vcrpy.Filters.Responses.{Response, decimal, digits_of}
use vcrpy.Clients.Httpx.Playing.{
  KeepsArguments, SendEnding, protected_send_stays_offline, recorded_then_played,
}
use vcrpy.Clients.Httpx.Recording.{read_by_caller, recording_is_deferred}

abbrev asked : HttpxRequest
asked = record { method = str "GET"; url = str "/a"; headers = []; content = [] }

abbrev made_of : Body → Request
made_of body = record {
  method = str "GET";
  uri = str "/a";
  parsed_uri = parse (str "/a");
  stored_body = body;
  was_file = false;
  was_iter = false;
  headers = record { store = [] };
}

made : Httpx.make_vcr_request small_urllib asked ≡ ok (made_of (Body.binary []))
unfolding Httpx.make_vcr_request create headers_from decode encode
made = refl

abbrev hello : RealReply
hello = record {
  status_code = 200;
  reason_phrase = str "OK";
  headers = (str "a", str "1") ∷ (str "a", str "2") ∷ [];
  content = str "hello";
  decoder = false;
}

abbrev library : Httpx.Library ℕ ℕ
library = record {
  send_single_request = λ w r. ok (record { history = []; request = r; response = hello }, w + 1);
  decode_content = λ r. ok r.content;
  response = λ code reason headers content. ok (record {
    status_code = code;
    reason_phrase = reason;
    headers = headers ++ (str "Content-Length", decimal (length content)) ∷ [];
    content = content;
  });
  extract_cookies = λ jar _ _. jar + 1;
}

abbrev session_in : RecordMode → Httpx.Session ℕ ℕ
session_in mode = record {
  cassette = new (settings_of mode);
  installed = true;
  jar = 0;
  world = 0;
  tasks = [];
}

unplayed_by :
    (mode : RecordMode) (body : Body)
    → can_play_response_for (new (settings_of mode)) (made_of body) ≡ ok false
unfolding can_play_response_for contains matching_responses matching any_available
unplayed_by mode body = refl

abbrev ask_made : Request
ask_made = made_of (Body.binary [])

protected : write_protected (new (settings_of RecordMode.none)) ≡ true
unfolding write_protected
protected = refl

free : write_protected (new (settings_of RecordMode.new_episodes)) ≡ false
unfolding write_protected
free = refl

-- The cassette is empty, and yet nothing is sent.
protected_send_stays_offline_example :
    SendEnding library
      (session_in RecordMode.none)
      asked
      ask_made
      false
      (send library small_urllib async_client (session_in RecordMode.none) asked)
protected_send_stays_offline_example =
    protected_send_stays_offline library small_urllib async_client (session_in RecordMode.none)
      asked ask_made ask_made false refl made protected refl refl
      (unplayed_by RecordMode.none (Body.binary []))

abbrev stored_hello : Response
stored_hello = record {
  code = 200;
  message = str "OK";
  headers = (str "a", str "1" ∷ str "2" ∷ []) ∷ [];
  string = str "hello";
}

abbrev read_hello : RealReply
read_hello = record hello { decoder = true }

serialized : Httpx.to_serialized_response library hello ≡ ok (stored_hello, read_hello)
unfolding Httpx.to_serialized_response Httpx.transform_headers Httpx.decoded_pairs decode group_from
    insert get list_eq
serialized = refl

abbrev played_hello : PlayedReply
played_hello = record {
  status_code = 200;
  reason_phrase = str "OK";
  headers = (str "a", str "1") ∷ (str "a", str "2") ∷ (str "Content-Length", str "5") ∷ [];
  content = str "hello";
}

played : Httpx.from_serialized_response library stored_hello ≡ ok played_hello
unfolding Httpx.from_serialized_response encode from_serialized_headers decimal digits_of
played = refl

content_length : lower (str "Content-Length") ≡ str "content-length"
unfolding lower
content_length = refl

values_without :
    (name : Str) (headers : Pairs Str) (value : Str)
    → lower name ≢ str "content-length"
    → values_of name (headers ++ (str "Content-Length", value) ∷ []) ≡ values_of name headers
values_without name [] value other = elim (Bool-cases (list_eq (str "Content-Length") name)) [
  | inl same ↦
      let named = (list_eq_iff (str "Content-Length") name).0 same in
      absurd (other (ap lower (sym named) ∙ content_length))
  | inr differs ↦ rw differs refl
]
values_without name ((key, v) ∷ headers) value other =
    rw (values_without name headers value other) refl

keeps : KeepsArguments library
keeps code reason content headers answer h =
    let same = ok-injective h in
    (
      ap (λ (x : PlayedReply). x.status_code) (sym same),
      ap (λ (x : PlayedReply). x.reason_phrase) (sym same),
      ap (λ (x : PlayedReply). x.content) (sym same),
      λ name other.
          ap (λ (x : PlayedReply). values_of name x.headers) (sym same)
          ∙ values_without name headers _ other,
    )

recorded_then_played_example :
    (pairs : Pairs Str) × (Httpx.decoded_pairs hello.headers ≡ ok pairs)
    × (played_hello.status_code ≡ 200)
    × (played_hello.content ≡ str "hello")
    × (encode (str "OK") ≡ ok played_hello.reason_phrase)
    × (values_of (str "a") played_hello.headers ≡ values_of (str "a") pairs)
recorded_then_played_example =
    recorded_then_played library hello read_hello stored_hello played_hello (str "a") keeps
      serialized played (unfold lower in λ e. cc e)

abbrev recorded_hello : Tape
recorded_hello = with_interaction (new (settings_of RecordMode.new_episodes)) ask_made stored_hello

abbrev reply_of : RealReply → Httpx.Reply
reply_of response = record { history = []; request = asked; response = response }

records :
    Httpx.record_responses library small_urllib
      (new (settings_of RecordMode.new_episodes))
      ask_made
      (reply_of hello)
    ≡ ok (reply_of read_hello, recorded_hello)
unfolding Httpx.record_responses Httpx.record_history Httpx.record_one Httpx.final_request
    Httpx.to_serialized_response Httpx.transform_headers Httpx.decoded_pairs decode group_from
    insert get list_eq append append_request append_response
records = refl

recording_is_deferred_example :
    (s' : Httpx.Session ℕ ℕ) × (send library small_urllib async_client
        (session_in RecordMode.new_episodes)
        asked
      ≡ ok (
        inl (reply_of read_hello),
        record (session_in RecordMode.new_episodes) { world = 1; cassette = recorded_hello },
      ))
    × (send library small_urllib (sync_client false) (session_in RecordMode.new_episodes) asked
        ≡ ok (
          inl (reply_of read_hello),
          record (session_in RecordMode.new_episodes) { world = 1; cassette = recorded_hello },
        ))
    × (send library small_urllib (sync_client true) (session_in RecordMode.new_episodes) asked
        ≡ ok (inl (reply_of hello), s'))
    × (s'.cassette ≡ new (settings_of RecordMode.new_episodes))
    × (Httpx.run_task library small_urllib s' ≡ (
      none,
      record (session_in RecordMode.new_episodes) { world = 1; cassette = recorded_hello },
    ))
    × (Httpx.run_task library small_urllib
          (touched (read_by_caller library small_urllib (str "hello")) s')
        ≡ (some (assertion_error []), record (session_in RecordMode.new_episodes) { world = 1 }))
recording_is_deferred_example =
    recording_is_deferred library small_urllib (session_in RecordMode.new_episodes) asked ask_made
      (reply_of hello) (reply_of read_hello) 1 recorded_hello (str "hello")
      (record {
        on = refl;
        made = made;
        unplayed = unplayed_by RecordMode.new_episodes (Body.binary []);
        free = free;
        answered = refl;
      })
      refl refl records
