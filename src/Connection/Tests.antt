-- ===== src/Connection/Tests.antt =====
-- The theorems about connections at concrete ones. The network counts the requests that it was sent.
use vcrpy.Prelude.{
  All, Bytes, List, Str, [], arith, concat, ended, false, inl, inr, length, none, ok, refl, some,
  str, true, ℕ, ◌++◌, ◌+◌, ◌<◌, ◌∷◌, ◌≡◌, ◌≤◌, List_eq, ℕ_eq, Option_eq,
}
use vcrpy.RecordMode.{RecordMode}
use vcrpy.CaseInsensitiveDict.Headers.{headers_from}
use vcrpy.Samples.{settings_of, small_urllib, parse}
use vcrpy.Request.{Request, create, get_body, null}
use vcrpy.Matching.{requests_match}
use vcrpy.Cassette.{matching, new, can_play_response_for, write_protected}
use vcrpy.Cassette.Appending.{with_interaction}
use vcrpy.Connection.Addresses.{Endpoint, uri_of}
use vcrpy.Connection.Reading.{stream, readline, first_line}
use vcrpy.Connection.Streaming.{stream_delivers}
use vcrpy.Connection.Responses.{VcrResponse, RealResponse, stored_response, vcr_response}
use vcrpy.Connection.Bypass.{exchange, empty_cassette_bypassed}
use vcrpy.Connection.Playing.{prepared, Ending, write_protected_stays_offline}
use vcrpy.Connection.Recording.{IsAnswered, unplayed_is_recorded}
use vcrpy.Connection.{Connection, RealConnection, Tape, in_use}

abbrev server : Endpoint
server = record { is_https = true; host = str "h"; port = 8443; tunnel = none }

abbrev hello : RealResponse
hello = record { status = 200; reason = str "OK"; headers = []; contents = str "hello" }

abbrev network : RealConnection ℕ
network = record {
  request = λ w _ _ _ _. ok (w + 1);
  putrequest = λ w _ _. ok w;
  putheader = λ w _ _. ok w;
  send = λ w _. ok w;
  endheaders = λ w _. ok w;
  close = λ w. ok w;
  connect = λ w. ok w;
  getresponse = λ w. ok (hello, w);
}

abbrev made_of : Str → Request
made_of url = record {
  method = str "GET";
  uri = uri_of server url;
  parsed_uri = parse (uri_of server url);
  stored_body = null;
  was_file = false;
  was_iter = false;
  headers = record { store = [] };
}

abbrev tape_in : RecordMode → Tape
tape_in mode = record (new (settings_of mode)) {
  interactions = (made_of (str "/b"), stored_response hello) ∷ [];
  rewound = true;
}

abbrev connection_to : Tape → Connection ℕ
connection_to c = record { cassette = some c; vcr_request = none; fake_sock = false; world = 0 }

abbrev empty_tape : Tape
empty_tape = new (settings_of RecordMode.none)

-- In the mode `NONE`, and yet sent.
empty_cassette_bypassed_example :
    exchange network small_urllib server (connection_to empty_tape) (str "GET") (str "/a") null []
    ≡ ok (inl hello, record (connection_to empty_tape) { world = 1 })
empty_cassette_bypassed_example =
    empty_cassette_bypassed network small_urllib server (connection_to empty_tape) empty_tape
      (str "GET") (str "/a") null [] hello 1 refl refl refl

made : create small_urllib (str "GET") (uri_of server (str "/a")) null [] ≡ ok (made_of (str "/a"))
unfolding create headers_from
made = refl

unplayed_by :
    (mode : RecordMode) → can_play_response_for (tape_in mode) (made_of (str "/a")) ≡ ok false
unfolding can_play_response_for requests_match matching
unplayed_by mode = refl

protected_by_none : write_protected (tape_in RecordMode.none) ≡ true
unfolding write_protected
protected_by_none = refl

free_by_new_episodes : write_protected (tape_in RecordMode.new_episodes) ≡ false
unfolding write_protected
free_by_new_episodes = refl

write_protected_stays_offline_example :
    Ending
      (connection_to (tape_in RecordMode.none))
      (tape_in RecordMode.none)
      (made_of (str "/a"))
      false
      (exchange network small_urllib server
        (connection_to (tape_in RecordMode.none))
        (str "GET")
        (str "/a")
        null
        [])
write_protected_stays_offline_example =
    write_protected_stays_offline network small_urllib server
      (connection_to (tape_in RecordMode.none)) (tape_in RecordMode.none) (str "GET") (str "/a")
      null [] (made_of (str "/a")) (made_of (str "/a")) false (unfold in_use in refl) made
      protected_by_none refl refl (unplayed_by RecordMode.none)

sent_once : IsAnswered network 0 (str "GET") (str "/a") (made_of (str "/a")) hello 1
unfolding get_body
sent_once = record { body = null; has_body = refl; sent = 1; sends = refl; receives = refl }

unplayed_is_recorded_example :
    exchange network small_urllib server
      (connection_to (tape_in RecordMode.new_episodes))
      (str "GET")
      (str "/a")
      null
      []
    ≡ ok (
      inr (vcr_response (stored_response hello)),
      record (prepared (connection_to (tape_in RecordMode.new_episodes)) (made_of (str "/a"))) {
        cassette = some (
            with_interaction
              (tape_in RecordMode.new_episodes)
              (made_of (str "/a"))
              (stored_response hello));
        world = 1;
      },
    )
unplayed_is_recorded_example =
    unplayed_is_recorded network small_urllib server
      (connection_to (tape_in RecordMode.new_episodes)) (tape_in RecordMode.new_episodes)
      (str "GET") (str "/a") null [] (made_of (str "/a")) (made_of (str "/a"))
      (stored_response hello) hello 1 refl
      (record { used = unfold in_use in refl; not_all = refl; made = made })
      (unplayed_by RecordMode.new_episodes) free_by_new_episodes sent_once (refl, refl)

abbrev half_read : VcrResponse
half_read = record {
  status = 200;
  reason = str "OK";
  headers = [];
  contents = str "hello";
  position = 2;
  closed = false;
}

stream_delivers_example :
    (pieces : List Bytes) × (r' : VcrResponse) × (stream 4 2 half_read
      ≡ ended (ok (pieces ++ [] ∷ [], r')))
    × (concat pieces ≡ str "llo")
    × All (λ (b : Bytes). (0 < length b) × (length b ≤ 2)) pieces
stream_delivers_example = stream_delivers 4 2 half_read (omega arith) (omega arith)

third_line : (readline half_read).0 ≡ str "llo"
unfolding readline first_line
third_line = refl
