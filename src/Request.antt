-- ===== src/Request.antt =====
-- vcrmartin/request.py, `class Request`, and `read_body` of vcrmartin/util.py. `urllib.parse` is a
-- parameter. The types of values that `body` and `headers` take are those that the program tells
-- apart.
pub mod Sorting
mod Tests
use vcrpy.Prelude.{
  Bool, Bytes, List, Option, Result, Str, [], err, false, if◌then◌else◌, ltb, map, none, ok, raised,
  some, str, true, type_error, value_error, ℕ, ◌++◌, ◌==◌, ◌>>=◌, ◌∷◌, List_eq, ℕ_eq,
}
use vcrpy.Text.Utf8.{encode}
use vcrpy.Dict.{Dict}
use vcrpy.CaseInsensitiveDict.{CaseInsensitiveDict, empty, items}
use vcrpy.CaseInsensitiveDict.Headers.{HeaderValue, single, headers_from, set_header}
use Sorting.{Pair, sorted}

-- What `urlparse` returns: the six parts of an address, and the two that it derives.
pub record Parts : Type 0 where
  pub scheme : Str
  pub netloc : Str
  pub path : Str
  pub params : Str
  pub query : Str
  pub fragment : Str
  pub hostname : Option Str
  -- reading it raises where it is no number
  pub port : Result (Option ℕ)

pub record Urllib : Type 0 where
  pub urlparse : Str → Result Parts
  pub urlunparse : Parts → Str
  pub parse_qsl : Str → List Pair
  pub urlencode : List Pair → Str

pub data HeaderText : Type 0 where
  text : Str → HeaderText
  binary : Bytes → HeaderText

abbrev pub Headers : Type 0
Headers = CaseInsensitiveDict HeaderText

-- An item of a list or an iterator.
pub data Chunk : Type 0 where
  text : Str → Chunk
  binary : Bytes → Chunk
  byte : ℕ → Chunk
  object : Chunk
  -- a bytearray
  array : Bytes → Chunk

-- `file` has a method `read`; `iterator` is an iterable that is no sequence.
pub data Body : Type 0 where
  null : Body
  text : Str → Body
  binary : Bytes → Body
  bytearray : Bytes → Body
  sequence : List Chunk → Body
  form : Dict Str Str → Body
  file : Bytes → Body
  iterator : List Chunk → Body

pub record Request : Type 0 where
  pub method : Str
  pub uri : Str
  pub parsed_uri : Parts
  pub stored_body : Body
  pub was_file : Bool
  pub was_iter : Bool
  pub headers : Headers

-- hasattr(body, "read")
unfoldable pub has_read : Body → Bool
has_read (file _) = true
has_read _ = false

-- `_is_nonsequence_iterator`; a file is one as well.
unfoldable pub is_nonsequence_iterator : Body → Bool
is_nonsequence_iterator (file _) = true
is_nonsequence_iterator (iterator _) = true
is_nonsequence_iterator _ = false

-- What `__init__` keeps of a file or an iterator, after it has read it.
unfoldable pub consume : Body → Body
consume (file contents) = Body.binary contents
consume (iterator chunks) = sequence chunks
consume body = body

-- The setter of `body`.
unfoldable pub encode_body : Body → Result Body
encode_body (Body.text s) = do bytes ← encode s; ok (Body.binary bytes)
encode_body body = ok body

unfoldable pub set_body : Body → Request → Result Request
unfolding encode_body
set_body body r = do stored ← encode_body body; ok (record r { stored_body = stored })

-- The setter of `headers`, given a dictionary that is no `HeadersDict`.
unfoldable pub set_headers : CaseInsensitiveDict HeaderText → Request → Result Request
set_headers value r = do
  headers ← headers_from (map (λ (p : Str × HeaderText). (p.0, single p.1)) (items value)) empty
  ok (record r { headers = headers })

-- The bytes of an item of a text or of bytes, iterated.
abbrev bytes_chunks : Bytes → List Chunk
bytes_chunks = map (λ b. byte b)

abbrev file_of : Body → Result Body
file_of null = ok (file [])
file_of (Body.binary bytes) = ok (file bytes)
file_of (bytearray bytes) = ok (file bytes)
file_of _ = err (raised type_error)

abbrev iterator_of : Body → Result Body
iterator_of (Body.binary bytes) = ok (iterator (bytes_chunks bytes))
iterator_of (bytearray bytes) = ok (iterator (bytes_chunks bytes))
iterator_of (sequence chunks) = ok (iterator chunks)
iterator_of (form d) = ok (iterator (map (λ (p : Str × Str). Chunk.text p.0) d))
iterator_of _ = err (raised type_error)

-- The getter of `body`.
unfoldable pub get_body : Request → Result Body
get_body r =
    if r.was_file
    then file_of r.stored_body
    else if r.was_iter
    then iterator_of r.stored_body
    else ok r.stored_body

-- `scheme`, `host`, `port`, `path` and `query`.
unfoldable pub scheme : Request → Str
scheme r = r.parsed_uri.scheme

unfoldable pub host : Request → Option Str
host r = r.parsed_uri.hostname

abbrev default_port : Str → Option ℕ
default_port s = if s == str "https" then some 443 else if s == str "http" then some 80 else none

abbrev port_or : Option ℕ → Str → Option ℕ
port_or (some n) s = some n
port_or none s = default_port s

unfoldable pub port : Request → Result (Option ℕ)
port r = do p ← r.parsed_uri.port; ok (port_or p r.parsed_uri.scheme)

unfoldable pub path : Request → Str
path r = r.parsed_uri.path

-- `url` and `protocol`, the older names.
unfoldable pub url_alias : Request → Str
url_alias r = r.uri

unfoldable pub protocol_alias : Request → Str
unfolding scheme
protocol_alias r = scheme r

-- `add_header`, with its warning left out.
unfoldable pub add_header : Str → HeaderValue HeaderText → Request → Result Request
unfolding set_header
add_header key value r = do
  headers ← set_header key value r.headers
  ok (record r { headers = headers })

module _ (urllib : Urllib) where
  unfoldable pub query : Request → List Pair
  query r = sorted (urllib.parse_qsl r.parsed_uri.query)

  -- The setter of `uri`.
  unfoldable pub set_uri : Str → Request → Result Request
  set_uri uri r = do parts ← urllib.urlparse uri; ok (record r { uri = uri; parsed_uri = parts })

  -- `__init__`
  unfoldable pub create : Str → Str → Body → List (Str × HeaderValue HeaderText) → Result Request
  unfolding encode_body consume has_read is_nonsequence_iterator
  create method uri body headers = do
    parts ← urllib.urlparse uri
    stored ← encode_body (consume body)
    kept ← headers_from headers empty
    ok (record {
      method = method;
      uri = uri;
      parsed_uri = parts;
      stored_body = stored;
      was_file = has_read body;
      was_iter = is_nonsequence_iterator body;
      headers = kept;
    })

-- `"".join`, which wants texts; `b"".join`, which wants bytes; `bytes`, which wants numbers.
abbrev cons_bytes : Bytes → Result Bytes → Result Bytes
cons_bytes here rest = do bytes ← rest; ok (here ++ bytes)

unfoldable pub join_texts : List Chunk → Result Str
join_texts [] = ok []
join_texts (Chunk.text s ∷ chunks) = cons_bytes s (join_texts chunks)
join_texts (_ ∷ chunks) = err (raised type_error)

unfoldable pub join_binaries : List Chunk → Result Bytes
join_binaries [] = ok []
join_binaries (Chunk.binary b ∷ chunks) = cons_bytes b (join_binaries chunks)
join_binaries (Chunk.array b ∷ chunks) = cons_bytes b (join_binaries chunks)
join_binaries (_ ∷ chunks) = err (raised type_error)

unfoldable pub join_bytes : List Chunk → Result Bytes
join_bytes [] = ok []
join_bytes (byte b ∷ chunks) =
    cons_bytes (b ∷ []) (if ltb b 256 then join_bytes chunks else err (raised value_error))
join_bytes (_ ∷ chunks) = err (raised type_error)

-- The first item decides how the items of an iterator are joined.
unfoldable pub join_chunks : List Chunk → Result Bytes
unfolding join_texts join_binaries join_bytes
join_chunks [] = ok []
join_chunks (Chunk.text s ∷ chunks) = do joined ← join_texts (Chunk.text s ∷ chunks); encode joined
join_chunks (Chunk.binary b ∷ chunks) = join_binaries (Chunk.binary b ∷ chunks)
join_chunks (Chunk.array b ∷ chunks) = join_binaries (Chunk.array b ∷ chunks)
join_chunks (byte b ∷ chunks) = join_bytes (byte b ∷ chunks)
join_chunks (object ∷ chunks) = err (raised value_error)

unfoldable pub read_contents : Body → Result Body
unfolding join_chunks
read_contents (file contents) = ok (Body.binary contents)
read_contents (iterator chunks) = do bytes ← join_chunks chunks; ok (Body.binary bytes)
read_contents body = ok body

-- `read_body` of util.py
unfoldable pub read_body : Request → Result Body
unfolding get_body read_contents
read_body r = do body ← get_body r; read_contents body
