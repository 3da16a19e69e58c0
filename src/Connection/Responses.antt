-- ===== src/Connection/Responses.antt =====
-- vcrmartin/stubs/__init__.py, `serialize_headers` and `VCRHTTPResponse`.
use vcrpy.Prelude.{
  Bool, Bytes, List, Option, Str, [], drop, false, if◌then◌else◌, length, none, some, str, take,
  true, ℕ, ◌++◌, ◌+◌, ◌==◌, ◌∷◌, List_eq, ℕ_eq,
}
use vcrpy.Text.{lower}
use vcrpy.Dict
use vcrpy.Dict.{Dict, get, insert}
use vcrpy.Filters.Responses.{Response}

-- What `http.client` received; the headers are the pairs that `compat.get_headers` yields.
pub record RealResponse : Type 0 where
  pub status : ℕ
  pub reason : Str
  pub headers : List (Str × List Str)
  pub contents : Bytes

abbrev pub extend : Option (List Str) → List Str → List Str
extend none values = values
extend (some old) values = old ++ values

-- The loop of `serialize_headers`.
unfoldable pub serialize_headers : List (Str × List Str) → Dict Str (List Str) → Dict Str (List Str)
serialize_headers [] out = out
serialize_headers ((key, values) ∷ rest) out =
    serialize_headers rest (Dict.insert key (extend (Dict.get key out) values) out)

-- The dictionary that `getresponse` makes of a response.
unfoldable pub stored_response : RealResponse → Response
unfolding serialize_headers
stored_response r = record {
  code = r.status;
  message = r.reason;
  headers = serialize_headers r.headers [];
  string = r.contents;
}

-- `position` is that of `_content`.
pub record VcrResponse : Type 0 where
  pub status : ℕ
  pub reason : Str
  pub headers : Dict Str (List Str)
  pub contents : Bytes
  pub position : ℕ
  pub closed : Bool

-- del headers[te_key[0]], of the first key with the name TRANSFER-ENCODING in upper case; names are
-- ASCII, where the same keys have that name in lower case.
unfoldable pub without_transfer_encoding : Dict Str (List Str) → Dict Str (List Str)
unfolding lower
without_transfer_encoding [] = []
without_transfer_encoding ((key, values) ∷ rest) =
    if lower key == str "transfer-encoding"
    then rest
    else (key, values) ∷ without_transfer_encoding rest

-- `__init__`. The deletion changes the dictionary of the cassette as well, where `before_record_response`
-- kept the object; that is not modelled.
unfoldable pub vcr_response : Response → VcrResponse
unfolding without_transfer_encoding
vcr_response r = record {
  status = r.code;
  reason = r.message;
  headers = without_transfer_encoding r.headers;
  contents = r.string;
  position = 0;
  closed = false;
}

-- read(amount), and read() for `none`
unfoldable pub read : Option ℕ → VcrResponse → Bytes × VcrResponse
read none r = (
  drop r.position r.contents,
  record r { position = r.position + length (drop r.position r.contents) },
)
read (some amount) r =
    let part = take amount (drop r.position r.contents) in
    (part, record r { position = r.position + length part })

unfoldable pub close_response : VcrResponse → VcrResponse
close_response r = record r { closed = true }
