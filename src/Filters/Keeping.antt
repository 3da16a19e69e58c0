-- ===== src/Filters/Keeping.antt =====
-- vcrmartin/filters.py: the filters of queries and bodies leave the headers of a request alone.
use vcrpy.Prelude.{
  Bool, Bytes, List, Str, [], ap, false, if◌then◌else◌, map, ok, ok-injective, ok_of_bind, sym,
  true, ◌≡◌, List_eq, ℕ_eq,
}
use vcrpy.Dict.{Dict}
use vcrpy.Text.Utf8.{encode}
use vcrpy.Request.{
  Request, Urllib, Body, query, get_body, set_body, encode_body, set_uri, bytearray, file, form,
  iterator, null, sequence,
}
use vcrpy.Filters.{Replacement, dict_of, replace_fields}
use vcrpy.Filters.Queries.{replace_parameters, replace_query_parameters}
use vcrpy.Filters.PostData.{
  Json, split, join, replace_parts, replace_bytes, replace_body, replace_object, replace_json,
  replace_in, replace_post_data_parameters,
}

abbrev SameHeaders : Request → Request → Type 0
SameHeaders r r' = r'.headers ≡ r.headers

headers-of_ok : {r r' : Request} → ok r ≡ ok r' → SameHeaders r r'
headers-of_ok same = ap (λ (q : Request). q.headers) (sym (ok-injective same))

headers-set_body : (body : Body) (r r' : Request) → set_body body r ≡ ok r' → SameHeaders r r'
unfolding set_body
headers-set_body body r r' h =
    let (stored, _, h1) = ok_of_bind (encode_body body) _ h in
    ap (λ (q : Request). q.headers) (sym (ok-injective h1))

-- A replaced query leaves the headers.
pub headers-replace_query_parameters :
    (urllib : Urllib) (r r' : Request) (replacements : List (Str × Replacement Str))
    → replace_query_parameters urllib r replacements ≡ ok r'
    → r'.headers ≡ r.headers
unfolding replace_query_parameters set_uri
headers-replace_query_parameters urllib r r' replacements h =
    let (fresh, _, h1) =
      ok_of_bind (replace_parameters r (dict_of replacements []) (query urllib r)) _ h in
    let (parts, _, h2) = ok_of_bind (urllib.urlparse r.uri) _ h1 in
    let uri = urllib.urlunparse (record parts { query = urllib.urlencode fresh }) in
    let (parts', _, h3) = ok_of_bind (urllib.urlparse uri) _ h2 in
    ap (λ (q : Request). q.headers) (sym (ok-injective h3))

module _ (r r' : Request) (replacements : Dict Str (Replacement Str)) where
  headers-replace_bytes : (b : Bytes) → replace_bytes r replacements b ≡ ok r' → SameHeaders r r'
  unfolding replace_bytes
  headers-replace_bytes b h =
      let (parts, _, h1) = ok_of_bind (replace_parts r replacements (split b'&' b)) _ h in
      headers-set_body (Body.binary (join b'&' parts)) r r' h1

  headers-replace_body : (b : Body) → replace_body r replacements b ≡ ok r' → SameHeaders r r'
  unfolding replace_body
  headers-replace_body (Body.binary b) h = headers-replace_bytes b h
  headers-replace_body (bytearray b) h = headers-replace_bytes b h
  headers-replace_body (Body.text s) h =
      let (bytes, _, h1) = ok_of_bind (encode s) _ h in headers-replace_bytes bytes h1
  headers-replace_body null h = cc h
  headers-replace_body (sequence chunks) h = cc h
  headers-replace_body (form d) h = cc h
  headers-replace_body (file contents) h = cc h
  headers-replace_body (iterator chunks) h = cc h

  module _ {J : Type 0} (codec : Json J) where
    headers-replace_object :
        (b : Bytes) → replace_object codec r replacements b ≡ ok r' → SameHeaders r r'
    unfolding replace_object
    headers-replace_object b h =
        let (fields, _, h1) = ok_of_bind (codec.loads b) _ h in
        let (fresh, _, h2) =
          ok_of_bind
            (replace_fields r
              (map (λ (p : Str × Replacement Str). (p.0, codec.of_replacement p.1)) replacements)
              fields)
            _ h1 in
        let (body, _, h3) = ok_of_bind (encode (codec.dumps fresh)) _ h2 in
        headers-set_body (Body.binary body) r r' h3

    headers-replace_json :
        (b : Body) → replace_json codec r replacements b ≡ ok r' → SameHeaders r r'
    unfolding replace_json
    headers-replace_json (Body.binary b) h = headers-replace_object b h
    headers-replace_json (bytearray b) h = headers-replace_object b h
    headers-replace_json (Body.text s) h = headers-replace_object s h
    headers-replace_json null h = cc h
    headers-replace_json (sequence chunks) h = cc h
    headers-replace_json (form d) h = cc h
    headers-replace_json (file contents) h = cc h
    headers-replace_json (iterator chunks) h = cc h

    headers-by_type :
        (b : Body) (json : Bool)
        → (if json then replace_json codec r replacements b else replace_body r replacements b)
          ≡ ok r'
        → SameHeaders r r'
    headers-by_type b true h = headers-replace_json b h
    headers-by_type b false h = headers-replace_body b h

    headers-replace_in : (b : Body) → replace_in codec r replacements b ≡ ok r' → SameHeaders r r'
    unfolding replace_in
    headers-replace_in (file contents) h = headers-of_ok h
    headers-replace_in (form d) h =
        let (fresh, _, h1) = ok_of_bind (replace_fields r replacements d) _ h in
        headers-set_body (form fresh) r r' h1
    headers-replace_in (Body.binary b) h = headers-by_type (Body.binary b) _ h
    headers-replace_in (bytearray b) h = headers-by_type (bytearray b) _ h
    headers-replace_in (Body.text s) h = headers-by_type (Body.text s) _ h
    headers-replace_in null h = headers-by_type null _ h
    headers-replace_in (sequence chunks) h = headers-by_type (sequence chunks) _ h
    headers-replace_in (iterator chunks) h = headers-by_type (iterator chunks) _ h

headers-if_form :
    {J : Type 0} (codec : Json J) (r r' : Request) (replacements : Dict Str (Replacement Str))
    (b : Body) (applies : Bool)
    → (if applies then replace_in codec r replacements b else ok r) ≡ ok r'
    → SameHeaders r r'
headers-if_form codec r r' replacements b true h = headers-replace_in r r' replacements codec b h
headers-if_form codec r r' replacements b false h = headers-of_ok h

-- A replaced body leaves the headers.
pub headers-replace_post_data_parameters :
    {J : Type 0} (codec : Json J) (r r' : Request) (replacements : List (Str × Replacement Str))
    → replace_post_data_parameters codec r replacements ≡ ok r'
    → r'.headers ≡ r.headers
unfolding replace_post_data_parameters
headers-replace_post_data_parameters codec r r' replacements h =
    let (body, _, h1) = ok_of_bind (get_body r) _ h in
    headers-if_form codec r r' (dict_of replacements []) body _ h1
