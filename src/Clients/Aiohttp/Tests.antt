-- ===== src/Clients/Aiohttp/Tests.antt =====
-- Concrete cases for vcrmartin/stubs/aiohttp_stubs.py: a cassette with a redirect of "/a" to itself.
use vcrpy.Prelude.{
  Bool, [], arith, ended, false, inr, none, ok, refl, some, str, true, ℕ, ◌+◌, ◌∷◌, ◌≡◌, List_eq,
  ℕ_eq, Option_eq,
}
use vcrpy.RecordMode.{RecordMode}
use vcrpy.Samples.{small_urllib, parse, settings_of}
use vcrpy.CaseInsensitiveDict.Headers.{headers_from}
use vcrpy.Request.{Request, create, null, get_body}
use vcrpy.Filters.Responses.{Response}
use vcrpy.Matching.{Matcher}
use vcrpy.Cassette.{
  new, contains, matching_responses, matching, any_available, can_play_response_for,
  write_protected,
}
use vcrpy.Cassette.Counting.{IsConsistent}
use vcrpy.Cassette.PlayCounts.{count-nil}
use vcrpy.Connection.{Tape}
use vcrpy.Clients.Aiohttp
use vcrpy.Clients.Aiohttp.{
  Arguments, RealResponse, Reply, play_responses, new_request, Library, Session, last_request,
  past_recorders, record_responses,
}
use vcrpy.Clients.Aiohttp.Redirects.{Ends, play_responses-Ends}
use vcrpy.Clients.Aiohttp.Recording.{unplayed_is_never_recorded}

-- Everything matches.
abbrev anything : Matcher Request
anything = record { name = "anything"; run = λ _ _. ok (some true) }

abbrev asked : Request
asked = record {
  method = str "GET";
  uri = str "/a";
  parsed_uri = parse (str "/a");
  stored_body = null;
  was_file = false;
  was_iter = false;
  headers = record { store = [] };
}

abbrev redirect : Response
redirect = record {
  code = 302;
  message = str "Found";
  headers = (str "Location", str "/a" ∷ []) ∷ [];
  string = [];
}

abbrev tape_with : Bool → Tape
tape_with repeats =
    record (new (record (settings_of RecordMode.new_episodes) {
      match_on = anything ∷ [];
      allow_playback_repeats = repeats;
    })) { interactions = (asked, redirect) ∷ []; rewound = true }

abbrev arguments : Arguments
arguments = record {
  method = str "GET";
  url = str "/a";
  params = [];
  headers = [];
  auth = none;
  data_or_json = null;
  allow_redirects = true;
}

abbrev answer : RealResponse
answer = record {
  info_method = str "GET";
  info_url = str "/a";
  info_headers = [];
  status = 200;
  reason = str "OK";
  headers = [];
  chunks = str "hello" ∷ [];
}

abbrev library : Aiohttp.Library ℕ ℕ
library = record {
  real_request = λ w _. ok (record { history = []; response = answer }, w + 1);
  join = λ _ location. ok location;
  url_with_params = λ url _. ok url;
  build_cookie_header = λ _ _ _. none;
  update_cookies = λ jar _ _. jar + 1;
}

tape-IsConsistent : IsConsistent (tape_with false)
tape-IsConsistent = record { keys = tt; once = λ _ i. omega (arith, count-nil i) }

play_responses-Ends_example :
    Ends (play_responses library small_urllib 1 (tape_with false) asked true)
play_responses-Ends_example =
    play_responses-Ends library small_urllib (tape_with false) asked true refl tape-IsConsistent

abbrev session : Aiohttp.Session ℕ ℕ
session = record {
  cassette = new (settings_of RecordMode.new_episodes);
  installed = true;
  jar = 0;
  world = 0;
}

made : Aiohttp.request_of library small_urllib 0 arguments ≡ ok asked
unfolding Aiohttp.request_of create headers_from
made = refl

unplayed : can_play_response_for (new (settings_of RecordMode.new_episodes)) asked ≡ ok false
unfolding can_play_response_for contains matching_responses matching any_available
unplayed = refl

free : write_protected (new (settings_of RecordMode.new_episodes)) ≡ false
unfolding write_protected
free = refl

recorders :
    Aiohttp.record_responses small_urllib asked (record { history = []; response = answer })
    ≡ ok (record { vcr_request = asked; response = answer } ∷ [])
unfolding Aiohttp.record_responses Aiohttp.past_recorders Aiohttp.last_request get_body
recorders = refl

unplayed_is_never_recorded_example :
    (new_request library small_urllib 1 session arguments
      ≡ ended (ok (inr (record { history = []; response = answer }), record session { world = 1 })))
    × (1 ≡ 0 + 1)
unplayed_is_never_recorded_example =
    unplayed_is_never_recorded library small_urllib 1 session arguments asked
      (record { history = []; response = answer }) 1
      (record { vcr_request = asked; response = answer } ∷ []) refl made unplayed free refl
      recorders
