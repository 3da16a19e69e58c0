-- ===== src/Matchers/Bodies.antt =====
-- vcrmartin/matchers.py, what `body` does before it compares: `_header_checker`, `_get_transformers`
-- and the transformers. The parsers of JSON, forms and XML-RPC are parameters; what they return is a
-- type `D` of values with Python's `==`.
use vcrpy.Prelude.{
  Bool, Bytes, List, Option, Result, Str, [], attribute_error, err, false, if◌then◌else◌, length,
  ltb, map, none, ok, raised, some, str, true, type_error, unicode_error, value_error, ℕ, ◌&&◌,
  ◌==◌, ◌>>=◌, ◌∷◌, List_eq, ℕ_eq, Option_eq, Pair_eq,
}
use vcrpy.Dict.{Dict, get}
use vcrpy.Dict
use vcrpy.Text.{lower, is_in}
use vcrpy.Text.Utf8.{encode, decode}
use vcrpy.CaseInsensitiveDict.{CaseInsensitiveDict}
use vcrpy.CaseInsensitiveDict
use vcrpy.Request.{
  Body, Chunk, HeaderText, Headers, Request, byte, bytearray, file, form, iterator, join_chunks,
  null, read_body, sequence,
}
use vcrpy.Dechunk.{dechunk}

-- A body as it was read, or what a parser made of it.
pub data Content (D : Type 0) : Type 0 where
  raw : Body → Content D
  loaded : D → Content D

pub record Loaders (D : Type 0) : Type 0 where
  pub same : D → D → Bool
  -- bool(value)
  pub truth : D → Bool
  -- urllib.parse.parse_qs, of bytes after .decode("ascii")
  pub parse_qs : Str → Result D
  -- json.loads of a text or of bytes
  pub json_loads : Bytes → Result D
  pub xmlrpc_loads : Content D → Result D

abbrev pub Transformer : Type 0 → Type 0
Transformer D = Content D → Result (Content D)

unfoldable pub same_chunk : Chunk → Chunk → Bool
same_chunk (Chunk.text a) (Chunk.text b) = a == b
same_chunk (Chunk.binary a) (Chunk.binary b) = a == b
same_chunk (Chunk.binary a) (Chunk.array b) = a == b
same_chunk (Chunk.array a) (Chunk.binary b) = a == b
same_chunk (Chunk.array a) (Chunk.array b) = a == b
same_chunk (byte a) (byte b) = a == b
same_chunk _ _ = false

unfoldable pub same_chunks : List Chunk → List Chunk → Bool
unfolding same_chunk
same_chunks [] [] = true
same_chunks (a ∷ as') (b ∷ bs) = same_chunk a b && same_chunks as' bs
same_chunks _ _ = false

unfoldable pub has_fields : Dict Str Str → Dict Str Str → Bool
has_fields [] d = true
has_fields ((k, v) ∷ rest) d = Dict.get k d == some v && has_fields rest d

-- `==` of what `read_body` returns, which is no file and no iterator. A `bytearray` is equal to
-- `bytes` of the same contents; an item that is an object of another type is equal to none.
unfoldable pub same_body : Body → Body → Bool
unfolding same_chunks has_fields
same_body null null = true
same_body (Body.text a) (Body.text b) = a == b
same_body (Body.binary a) (Body.binary b) = a == b
same_body (Body.binary a) (bytearray b) = a == b
same_body (bytearray a) (Body.binary b) = a == b
same_body (bytearray a) (bytearray b) = a == b
same_body (sequence a) (sequence b) = same_chunks a b
same_body (form a) (form b) = length a == length b && has_fields a b
same_body _ _ = false

-- headers.get(header, "") as a text
unfoldable pub header_text : Option HeaderText → Result Str
header_text none = ok []
header_text (some (HeaderText.text s)) = ok s
header_text (some (HeaderText.binary b)) = decode b

-- `checker` of `_header_checker(value, header)`
unfoldable pub has_header : Str → Str → Headers → Result Bool
unfolding header_text
has_header value header headers = do
  s ← header_text (CaseInsensitiveDict.get header headers)
  ok (is_in value (lower s))

-- The loop of `_dechunk` ends (`Dechunk.Fuel.dechunk_ends`), so that the last clause is not reached.
abbrev pub or_stuck : Option (Result Bytes) → Result Bytes
or_stuck (some outcome) = outcome
or_stuck none = err (raised value_error)

unfoldable pub dechunk_bytes : Bytes → Result Body
dechunk_bytes bytes = do contents ← or_stuck (dechunk bytes); ok (Body.binary contents)

-- The items of a list, or the keys of a dictionary, joined by the type of the first; `bytes` are
-- iterated as well, and what has no items becomes `None`. A bytearray is no `bytes` here.
unfoldable pub dechunk_items : List Chunk → Result Body
unfolding dechunk_bytes
dechunk_items [] = ok null
dechunk_items (Chunk.array b ∷ cs) = err (raised value_error)
dechunk_items (c ∷ cs) = do joined ← join_chunks (c ∷ cs); dechunk_bytes joined

-- `_dechunk`, of a body that was read and so is no file and no iterator.
unfoldable pub dechunk_body : Body → Result Body
unfolding dechunk_items dechunk_bytes
dechunk_body null = ok null
dechunk_body (Body.text s) = do bytes ← encode s; dechunk_bytes bytes
dechunk_body (bytearray bytes) = dechunk_bytes bytes
dechunk_body (Body.binary []) = ok null
dechunk_body (Body.binary (b ∷ bytes)) = dechunk_bytes (b ∷ bytes)
dechunk_body (sequence chunks) = dechunk_items chunks
dechunk_body (form d) = dechunk_items (map (λ (p : Str × Str). Chunk.text p.0) d)
dechunk_body body = ok body

-- bool(body)
unfoldable pub body_truth : Body → Bool
body_truth null = false
body_truth (Body.text s) = ltb 0 (length s)
body_truth (Body.binary b) = ltb 0 (length b)
body_truth (bytearray b) = ltb 0 (length b)
body_truth (sequence chunks) = ltb 0 (length chunks)
body_truth (form d) = ltb 0 (length d)
body_truth (file contents) = true
body_truth (iterator chunks) = true

-- bytes.decode("ascii")
unfoldable pub decode_ascii : Bytes → Result Str
decode_ascii [] = ok []
decode_ascii (b ∷ bytes) = do
  rest ← decode_ascii bytes
  if ltb b 128 then ok (b ∷ rest) else err (raised unicode_error)

module _ {D : Type 0} (loaders : Loaders D) where
  unfoldable pub same_content : Content D → Content D → Bool
  same_content (raw a) (raw b) = same_body a b
  same_content (loaded a) (loaded b) = loaders.same a b
  same_content _ _ = false

  unfoldable pub apply_dechunk : Transformer D
  apply_dechunk (raw body) = do body' ← dechunk_body body; ok (raw body')
  apply_dechunk (loaded d) = ok (loaded d)

  unfoldable pub parse_form : Transformer D
  parse_form (raw (Body.binary bytes)) = do
    s ← decode_ascii bytes
    fields ← loaders.parse_qs s
    ok (loaded fields)
  parse_form (raw (bytearray bytes)) = do
    s ← decode_ascii bytes
    fields ← loaders.parse_qs s
    ok (loaded fields)
  parse_form _ = err (raised attribute_error)

  abbrev pub load_json : Bytes → Result (Content D)
  load_json bytes = do value ← loaders.json_loads bytes; ok (loaded value)

  abbrev pub load_body : Body → Result (Content D)
  load_body (Body.text s) = load_json s
  load_body (Body.binary bytes) = load_json bytes
  load_body (bytearray bytes) = load_json bytes
  load_body _ = err (raised type_error)

  -- `_transform_json`; what a form was parsed to is a dictionary, which `json.loads` refuses.
  unfoldable pub transform_json : Transformer D
  unfolding body_truth
  transform_json (raw body) = if body_truth body then load_body body else ok (raw null)
  transform_json (loaded d) = if loaders.truth d then err (raised type_error) else ok (raw null)

  unfoldable pub parse_xml : Transformer D
  parse_xml content = do value ← loaders.xmlrpc_loads content; ok (loaded value)

-- The checkers of `_checker_transformer_pairs`, in their order; the last one asks for both.
unfoldable pub is_xmlrpc : Headers → Result Bool
unfolding has_header
is_xmlrpc headers = do
  xml ← has_header (str "text/xml") (str "Content-Type") headers
  if xml then has_header (str "xmlrpc") (str "User-Agent") headers else ok false

-- The transformers, by their place in `_checker_transformer_pairs`.
pub data Kind : Type 0 where
  chunked urlencoded json xmlrpc : Kind

unfoldable pub checks : Kind → Headers → Result Bool
unfolding has_header is_xmlrpc
checks chunked = has_header (str "chunked") (str "Transfer-Encoding")
checks urlencoded = has_header (str "application/x-www-form-urlencoded") (str "Content-Type")
checks json = has_header (str "application/json") (str "Content-Type")
checks xmlrpc = is_xmlrpc

unfoldable pub kinds_of : List Kind → Headers → Result (List Kind)
unfolding checks
kinds_of [] headers = ok []
kinds_of (k ∷ ks) headers = do
  here ← checks k headers
  rest ← kinds_of ks headers
  ok (if here then k ∷ rest else rest)

-- `_get_transformers`
unfoldable pub get_transformers : Headers → Result (List Kind)
unfolding kinds_of
get_transformers = kinds_of (chunked ∷ urlencoded ∷ json ∷ xmlrpc ∷ [])

abbrev pub rank : Kind → ℕ
rank chunked = 0
rank urlencoded = 1
rank json = 2
rank xmlrpc = 3

-- transformers != list(_get_transformers(r2))
unfoldable pub same_kinds : List Kind → List Kind → Bool
same_kinds ks ls = map rank ks == map rank ls

module _ {D : Type 0} (loaders : Loaders D) where
  unfoldable pub transformer : Kind → Transformer D
  unfolding apply_dechunk parse_form transform_json parse_xml
  transformer chunked = apply_dechunk loaders
  transformer urlencoded = parse_form loaders
  transformer json = transform_json loaders
  transformer xmlrpc = parse_xml loaders

  -- The loop of `body`.
  unfoldable pub transform_both : List Kind → Content D → Content D → Result (Content D × Content D)
  transform_both [] b1 b2 = ok (b1, b2)
  transform_both (k ∷ ks) b1 b2 = do
    b1' ← transformer k b1
    b2' ← transformer k b2
    transform_both ks b1' b2'

  -- The two bodies that `body` compares.
  unfoldable pub transformed : Request → Request → Result (Content D × Content D)
  unfolding get_transformers transform_both
  transformed r1 r2 = do
    ks ← get_transformers r1.headers
    ls ← get_transformers r2.headers
    b1 ← read_body r1
    b2 ← read_body r2
    transform_both (if same_kinds ks ls then ks else []) (raw b1) (raw b2)
