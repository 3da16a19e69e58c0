-- ===== src/Serialize/RoundTrip.antt =====
-- What is read back of a cassette that was written, by vcrmartin/serialize.py and the persister of
-- vcrmartin/persisters/filesystem.py.
use vcrpy.Prelude.{
  All, Bytes, List, Result-cases, Str, [], ap, eq_refl, false, firsts, if◌then◌else◌, inl, inr, map,
  ok, ok-injective, ok_of_bind, refl, seconds, some, subst, sym, zip-firsts-seconds, ℕ, ◌==◌, ◌∙◌,
  ◌∷◌, ◌≡◌, ◌⊎◌, List_eq, ℕ_eq,
}
use vcrpy.Dict
use vcrpy.Dict.{get, insert, get-insert, Dict}
use vcrpy.Text.Utf8.{decode}
use vcrpy.Text.Utf8.Inverse.{encode-decode}
use vcrpy.CaseInsensitiveDict.{CaseInsensitiveDict, empty, items}
use vcrpy.CaseInsensitiveDict.Laws.{IsStore}
use vcrpy.CaseInsensitiveDict.Headers.{
  several, singles, headers_from, set_header, headers_from-items,
}
use vcrpy.Request.{
  Request, Urllib, Body, HeaderText, create, get_body, encode_body, consume, has_read,
  is_nonsequence_iterator, null, path,
}
use vcrpy.Filters.Responses.{Response}
use vcrpy.Serialize.{
  RequestDict, ResponseDict, interactions, Serializer, convert_string_to_unicode,
  convert_string_to_bytes, to_dict, from_dict, request_to_unicode, response_to_unicode,
  response_to_bytes, dicts_of, requests_of, responses_of_dicts, Files, serialize, deserialize,
  filesystem_persister, readable, cassette_format_version,
}

-- The bodies that `__init__` keeps of a text, bytes or `None`.
abbrev pub IsPlainBody : Body → Type 0
IsPlainBody body = (body ≡ null) ⊎ ((bytes : Bytes) × (body ≡ Body.binary bytes))

-- The request is one that the constructor makes of such a body.
pub record IsStorable (urllib : Urllib) (r : Request) : Type 0 where
  pub parsed : urllib.urlparse r.uri ≡ ok r.parsed_uri
  pub no_file : r.was_file ≡ false
  pub no_iterator : r.was_iter ≡ false
  pub plain : IsPlainBody r.stored_body
  pub store : IsStore r.headers

-- What becomes of a body that is written and read.
record IsKept (body : Body) : Type 0 where
  contents : encode_body (consume (convert_string_to_unicode body)) ≡ ok body
  not_read : has_read (convert_string_to_unicode body) ≡ false
  not_iterated : is_nonsequence_iterator (convert_string_to_unicode body) ≡ false

read_back_bytes : (bytes : Bytes) → IsKept (Body.binary bytes)
unfolding encode_body consume has_read is_nonsequence_iterator convert_string_to_unicode
read_back_bytes bytes = elim (Result-cases (decode bytes)) [
  | inl (s, e) ↦ record {
    contents = rw (e, encode-decode bytes s e);
    not_read = rw e;
    not_iterated = rw e;
  }
  | inr (x, e) ↦ record { contents = rw e; not_read = rw e; not_iterated = rw e }
]

read_back : (body : Body) → IsPlainBody body → IsKept body
unfolding encode_body consume has_read is_nonsequence_iterator convert_string_to_unicode
read_back body (inl e) =
    subst IsKept (sym e) (record { contents = refl; not_read = refl; not_iterated = refl })
read_back body (inr (bytes, e)) = subst IsKept (sym e) (read_back_bytes bytes)

headers_from_lists :
    (l : List (Str × HeaderText)) (d : CaseInsensitiveDict HeaderText)
    → headers_from
        (map
          (λ (p : Str × List HeaderText). (p.0, several p.1))
          (map (λ (p : Str × HeaderText). (p.0, p.1 ∷ [])) l))
        d
      ≡ headers_from (singles l) d
unfolding headers_from set_header
headers_from_lists [] d = refl
headers_from_lists ((k, v) ∷ l) d = headers_from_lists l _

-- The dictionary of a request.
abbrev dict_for : Request → RequestDict
dict_for r = record {
  method = r.method;
  uri = r.uri;
  body = r.stored_body;
  headers = map (λ (p : Str × HeaderText). (p.0, p.1 ∷ [])) (items r.headers);
}

module _ (urllib : Urllib) where
  to_dict_storable : (r : Request) → IsStorable urllib r → to_dict r ≡ ok (dict_for r)
  unfolding to_dict get_body
  to_dict_storable r w = rw (w.no_file, w.no_iterator)

  from_dict_storable :
      (r : Request)
      → IsStorable urllib r
      → from_dict urllib (request_to_unicode (dict_for r)) ≡ ok r
  unfolding from_dict create
  from_dict_storable r w =
      let b = read_back r.stored_body w.plain in
      rw
        (
          w.parsed,
          b.contents,
          headers_from_lists (items r.headers) empty,
          headers_from-items r.headers w.store,
        )
        (λ i. ok (record r {
          was_file = (b.not_read ∙ sym w.no_file) i;
          was_iter = (b.not_iterated ∙ sym w.no_iterator) i;
        }))

response_returns : (r : Response) → response_to_bytes (response_to_unicode r) ≡ ok r
unfolding response_to_bytes convert_string_to_unicode convert_string_to_bytes
response_returns r = elim (Result-cases (decode r.string)) [
  | inl (s, e) ↦ rw (e, encode-decode r.string s e)
  | inr (x, e) ↦ rw e
]

-- The interactions as they are written.
abbrev written : List (Request × Response) → List (RequestDict × ResponseDict)
written [] = []
written ((request, response) ∷ l) =
    (request_to_unicode (dict_for request), response_to_unicode response) ∷ written l

responses_return : (l : List (Request × Response)) → responses_of_dicts (written l) ≡ ok (seconds l)
unfolding responses_of_dicts
responses_return [] = refl
responses_return ((request, response) ∷ l) = rw (response_returns response, responses_return l)

-- A serializer reads back what it has written.
abbrev pub ReadsBack : Serializer → Type 0
ReadsBack serializer =
    (version : ℕ) (dicts : List (RequestDict × ResponseDict)) (s : Str)
    → serializer.serialize_data version dicts ≡ ok s
    → serializer.deserialize_data s ≡ ok (interactions dicts)

module _ (urllib : Urllib) where
  abbrev pub AreStorable : List (Request × Response) → Type 0
  AreStorable = All (λ (p : Request × Response). IsStorable urllib p.0)

  dicts_written : (l : List (Request × Response)) → AreStorable l → dicts_of l ≡ ok (written l)
  unfolding dicts_of
  dicts_written [] w = refl
  dicts_written ((request, response) ∷ l) w =
      rw (to_dict_storable urllib request w.0, dicts_written l w.1)

  requests_return :
      (l : List (Request × Response))
      → AreStorable l
      → requests_of urllib (written l) ≡ ok (firsts l)
  unfolding requests_of
  requests_return [] w = refl
  requests_return ((request, response) ∷ l) w =
      rw (from_dict_storable urllib request w.0, requests_return l w.1)

  serialize_lem :
      (serializer : Serializer) (l : List (Request × Response))
      → AreStorable l
      → serialize urllib serializer (firsts l, seconds l)
        ≡ serializer.serialize_data cassette_format_version (written l)
  unfolding serialize
  serialize_lem serializer l w = rw (zip-firsts-seconds l, dicts_written l w)

  deserialize_lem :
      (serializer : Serializer) (l : List (Request × Response)) (s : Str)
      → AreStorable l
      → serializer.deserialize_data s ≡ ok (interactions (written l))
      → deserialize urllib serializer s ≡ ok (firsts l, seconds l)
  unfolding deserialize
  deserialize_lem serializer l s w h = rw (h, requests_return l w, responses_return l)

  -- Of requests that the constructor has made of bytes, a text or no body, and not of a file, an
  -- iterator or a list, and of any responses: the file system persister loads from a path what was
  -- saved there last, byte for byte, whether the bodies are UTF-8 or not, and a save changes no other
  -- path. It assumes a serializer that reads back what it has written.
  pub saved_is_loaded :
      (serializer : Serializer) (path other : Str) (l : List (Request × Response))
      (files files' : Files)
      → ReadsBack serializer
      → AreStorable l
      → (filesystem_persister urllib serializer path).save_cassette files (firsts l, seconds l)
        ≡ ok files'
      → ((filesystem_persister urllib serializer path).load_cassette files'
          ≡ ok (firsts l, seconds l))
        × (s : Str) × (Dict.get other files'
            ≡ (if path == other then some (readable s) else Dict.get other files))
  unfolding filesystem_persister
  saved_is_loaded serializer path other l files files' reads w saved =
      let (s, wrote, e) = ok_of_bind (serialize urllib serializer (firsts l, seconds l)) _ saved in
      let known =
        reads cassette_format_version (written l) s (sym (serialize_lem serializer l w) ∙ wrote) in
      let looked_up = λ (key : Str).
        ap (Dict.get key) (sym (ok-injective e)) ∙ get-insert path key (readable s) files in
      let found : Dict.get path files' ≡ some (readable s) = looked_up path ∙ rw (eq_refl path) in
      (rw found (deserialize_lem serializer l s w known), s, looked_up other)
