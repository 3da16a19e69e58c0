-- ===== src/Serialize.antt =====
-- vcrmartin/serialize.py, vcrmartin/serializers/compat.py, `_to_dict` and `_from_dict` of
-- vcrmartin/request.py, and vcrmartin/persisters/filesystem.py. The YAML or JSON serializer is a
-- parameter.
pub mod RoundTrip
mod Tests
use vcrpy.Prelude.{
  Bytes, List, Option, Result, Str, [], attribute_error, cassette_decode, cassette_not_found, err,
  map, none, ok, raised, some, type_error, value_error, zip, ℕ, ◌>>=◌, ◌∷◌, List_eq, ℕ_eq,
}
use vcrpy.Dict
use vcrpy.Dict.{Dict, get, insert}
use vcrpy.Text.Utf8.{encode, decode}
use vcrpy.CaseInsensitiveDict.{items}
use vcrpy.CaseInsensitiveDict.Headers.{HeaderValue, several}
use vcrpy.Request.{
  Request, Urllib, Body, HeaderText, create, get_body, binary, bytearray, file, null, path, text,
}
use vcrpy.Filters.Responses.{Response}
use vcrpy.Cassette.Storage.{Persister}

-- The dictionaries of an interaction in a cassette's file. "string" may be a text, bytes or `None`.
pub record RequestDict : Type 0 where
  pub method : Str
  pub uri : Str
  pub body : Body
  pub headers : List (Str × List HeaderText)

pub record ResponseDict : Type 0 where
  pub code : ℕ
  pub message : Str
  pub headers : Dict Str (List Str)
  pub string : Body

-- What a serializer reads: an interaction list, or the format of old versions, which it may also
-- fail to construct.
pub data Loaded : Type 0 where
  interactions : List (RequestDict × ResponseDict) → Loaded
  old_format constructor_error : Loaded

-- `serialize` of a dictionary with "version" and "interactions", and `deserialize` of a file.
pub record Serializer : Type 0 where
  pub serialize_data : ℕ → List (RequestDict × ResponseDict) → Result Str
  pub deserialize_data : Str → Result Loaded

abbrev pub decoded_or : Bytes → Result Str → Body
decoded_or bytes (ok s) = Body.text s
decoded_or bytes (err e) = Body.binary bytes

-- `_convert_string_to_unicode`: bytes that are no UTF-8 stay as they are, and so does what has no
-- `decode`.
unfoldable pub convert_string_to_unicode : Body → Body
convert_string_to_unicode (Body.binary bytes) = decoded_or bytes (decode bytes)
convert_string_to_unicode (bytearray bytes) = elim (decode bytes) [
  | ok s ↦ Body.text s
  | err e ↦ bytearray bytes
]
convert_string_to_unicode body = body

abbrev pub encoded_or : Str → Result Bytes → Body
encoded_or s (ok bytes) = Body.binary bytes
encoded_or s (err e) = Body.text s

-- `convert_body_to_bytes`, on the value of "string".
unfoldable pub convert_string_to_bytes : Body → Result Body
convert_string_to_bytes null = ok null
convert_string_to_bytes (Body.binary bytes) = ok (Body.binary bytes)
convert_string_to_bytes (Body.text s) = ok (encoded_or s (encode s))
convert_string_to_bytes body = err (raised attribute_error)

-- `_to_dict`
unfoldable pub to_dict : Request → Result RequestDict
unfolding get_body items
to_dict r = do
  body ← get_body r
  ok (record {
    method = r.method;
    uri = r.uri;
    body = body;
    headers = map (λ (p : Str × HeaderText). (p.0, p.1 ∷ [])) (items r.headers);
  })

module _ (urllib : Urllib) where
  -- `_from_dict`
  unfoldable pub from_dict : RequestDict → Result Request
  unfolding create
  from_dict d =
      create urllib d.method d.uri d.body
        (map (λ (p : Str × List HeaderText). (p.0, several p.1)) d.headers)

-- `convert_to_unicode` of the dictionary of a request: its body has no key "string" that is bytes.
abbrev pub request_to_unicode : RequestDict → RequestDict
request_to_unicode d = record d { body = convert_string_to_unicode d.body }

abbrev pub response_to_unicode : Response → ResponseDict
response_to_unicode r = record {
  code = r.code;
  message = r.message;
  headers = r.headers;
  string = convert_string_to_unicode (Body.binary r.string);
}

-- A response of which "string" is bytes, as the program uses it; another one is refused where the
-- body is read.
abbrev pub with_string : ResponseDict → Body → Result Response
with_string d (Body.binary bytes) =
    ok (record { code = d.code; message = d.message; headers = d.headers; string = bytes })
with_string d _ = err (raised type_error)

unfoldable pub response_to_bytes : ResponseDict → Result Response
unfolding convert_string_to_bytes
response_to_bytes d = do string ← convert_string_to_bytes d.string; with_string d string

-- CASSETTE_FORMAT_VERSION
abbrev pub cassette_format_version : ℕ
cassette_format_version = 1

-- The list of interactions that `serialize` makes.
unfoldable pub dicts_of : List (Request × Response) → Result (List (RequestDict × ResponseDict))
unfolding to_dict convert_string_to_unicode
dicts_of [] = ok []
dicts_of ((request, response) ∷ rest) = do
  d ← to_dict request
  others ← dicts_of rest
  ok ((request_to_unicode d, response_to_unicode response) ∷ others)

module _ (urllib : Urllib) where
  unfoldable pub requests_of : List (RequestDict × ResponseDict) → Result (List Request)
  unfolding from_dict
  requests_of [] = ok []
  requests_of ((request, response) ∷ rest) = do
    r ← from_dict urllib request
    others ← requests_of rest
    ok (r ∷ others)

unfoldable pub responses_of_dicts : List (RequestDict × ResponseDict) → Result (List Response)
unfolding response_to_bytes
responses_of_dicts [] = ok []
responses_of_dicts ((request, response) ∷ rest) = do
  r ← response_to_bytes response
  others ← responses_of_dicts rest
  ok (r ∷ others)

-- A file holds a text, or bytes that are none.
pub data File : Type 0 where
  readable : Str → File
  broken : File

abbrev pub Files : Type 0
Files = Dict Str File

module _ (urllib : Urllib) (serializer : Serializer) where
  unfoldable pub serialize : List Request × List Response → Result Str
  unfolding dicts_of
  serialize cassette_dict = do
    dicts ← dicts_of (zip cassette_dict.0 cassette_dict.1)
    serializer.serialize_data cassette_format_version dicts

  abbrev pub from_loaded : Loaded → Result (List Request × List Response)
  from_loaded old_format = err (raised value_error)
  from_loaded constructor_error = err (raised value_error)
  from_loaded (interactions dicts) = do
    requests ← requests_of urllib dicts
    responses ← responses_of_dicts dicts
    ok (requests, responses)

  unfoldable pub deserialize : Str → Result (List Request × List Response)
  unfolding requests_of responses_of_dicts
  deserialize cassette_string = do
    loaded ← serializer.deserialize_data cassette_string
    from_loaded loaded

  abbrev pub load_file : Option File → Result (List Request × List Response)
  load_file none = err (raised cassette_not_found)
  load_file (some broken) = err (raised cassette_decode)
  load_file (some (readable s)) = deserialize s

  -- `FilesystemPersister`, for one path. Folders are made where they are missing.
  unfoldable pub filesystem_persister : Str → Persister Request Response Files
  unfolding serialize deserialize
  filesystem_persister path = record {
    load_cassette = λ files. load_file (Dict.get path files);
    save_cassette = λ files cassette_dict. do
      s ← serialize cassette_dict
      ok (Dict.insert path (readable s) files);
  }
