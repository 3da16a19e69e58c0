-- ===== src/Samples.antt =====
-- Small parameters for the tests: an address is a path and a query on the server "h", and the codecs
-- and the network are tables.
use vcrpy.Prelude.{
  Bytes, Option, Str, [], err, false, if◌then◌else◌, map, nat_eq, none, ok, raised, some, str, true,
  value_error, ℕ, ◌++◌, ◌∷◌, List_eq, ℕ_eq,
}
use vcrpy.Matching.{Matcher}
use vcrpy.RecordMode.{RecordMode}
use vcrpy.Cassette.{Settings}
use vcrpy.CaseInsensitiveDict.{CaseInsensitiveDict}
use vcrpy.Request.Sorting.{Pair}
use vcrpy.Request.{Request, Parts, Urllib, Body, HeaderText, null}
use vcrpy.Filters.PostData.{Json, split, join, partition}
use vcrpy.Filters.Responses.{Zlib, Response}
use vcrpy.Filters.{Replacement}
use vcrpy.Matchers.{Shown}
use vcrpy.Matchers.Bodies.{Loaders}
use vcrpy.Serialize.{Serializer}

abbrev pub parse : Str → Parts
parse s = record {
  scheme = str "http";
  netloc = str "h";
  path = (partition b'?' s).0;
  params = [];
  query = (partition b'?' s).1.1;
  fragment = [];
  hostname = some (str "h");
  port = ok none;
}

abbrev pub parse_pair : Str → Pair
parse_pair part = ((partition b'=' part).0, (partition b'=' part).1.1)

abbrev pub small_urllib : Urllib
small_urllib = record {
  urlparse = λ s. ok (parse s);
  urlunparse = λ p. p.path ++ str "?" ++ p.query;
  parse_qsl = λ q. map parse_pair (split b'&' q);
  urlencode = λ l. join b'&' (map (λ (p : Pair). p.0 ++ str "=" ++ p.1) l);
}

abbrev pub headers_with : Str → Str → CaseInsensitiveDict HeaderText
headers_with key field = record { store = (key, (key, HeaderText.text field)) ∷ [] }

abbrev pub get_of : Str → Request
get_of uri = record {
  method = str "GET";
  uri = uri;
  parsed_uri = parse uri;
  stored_body = null;
  was_file = false;
  was_iter = false;
  headers = headers_with (str "cookie") (str "c");
}

abbrev pub post_of : Bytes → Request
post_of bytes = record (get_of (str "/")) { method = str "POST"; stored_body = Body.binary bytes }

-- A compressed body is one behind the byte "z".
abbrev pub unzip : Bytes → Option Bytes
unzip [] = none
unzip (b ∷ bytes) = if nat_eq b b'z' then some bytes else none

abbrev pub small_zlib : Zlib
small_zlib = record { decompress_gzip = unzip; decompress_deflate = unzip }

-- Nothing matches.
abbrev pub nothing : Matcher Request
nothing = record { name = "nothing"; run = λ _ _. ok (some false) }

abbrev pub settings_of : RecordMode → Settings Request Response
settings_of mode = record {
  record_mode = mode;
  match_on = nothing ∷ [];
  before_record_request = λ q. ok (some q);
  before_record_response = λ p. ok (some p);
  inject = false;
  allow_playback_repeats = false;
  drop_unused_requests = false;
}

abbrev pub shown : Shown
shown = record { of_port = λ _. []; of_host = λ _. []; of_query = λ _. []; of_headers = λ _. [] }

-- Parsers that refuse everything.
abbrev pub no_loaders : Loaders ℕ
no_loaders = record {
  same = nat_eq;
  truth = λ _. true;
  parse_qs = λ _. err (raised value_error);
  json_loads = λ _. err (raised value_error);
  xmlrpc_loads = λ _. err (raised value_error);
}

abbrev pub no_json : Json ℕ
no_json = record {
  loads = λ _. ok [];
  dumps = λ _. str "{}";
  of_replacement = λ _. Replacement.remove;
}

-- A serializer that writes nothing.
abbrev pub plain : Serializer
plain = record { serialize_data = λ _ _. ok []; deserialize_data = λ _. err (raised value_error) }
