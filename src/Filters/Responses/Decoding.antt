-- ===== src/Filters/Responses/Decoding.antt =====
-- What `decode_response` of vcrmartin/filters.py leaves of a compressed response.
use vcrpy.Prelude.{
  Bytes, List, Str, [], ap, arith, if◌then◌else◌, length, list_eq, none, refl, some, str, ◌==◌, ◌∙◌,
  ◌∷◌, ◌≡◌, List_eq, ℕ_eq,
}
use vcrpy.Text.{lower}
use vcrpy.CaseInsensitiveDict
use vcrpy.CaseInsensitiveDict.{CaseInsensitiveDict, from_pairs, items, set, copy, get}
use vcrpy.CaseInsensitiveDict.Laws.{
  IsStore, get-set, set-IsStore, from_pairs-IsStore, copy-eq_self, erase-IsStore, get-erase_key,
}
use vcrpy.Filters.Responses.{
  Response, Zlib, content_encoding, decimal, remove_encoding, decoded_headers, decompress_body,
  compression, decode_response,
}

module _ (d : CaseInsensitiveDict (List Str)) (w : IsStore d) (encoding : Str) where
  without : CaseInsensitiveDict (List Str)
  unfolding remove_encoding
  without = remove_encoding (encoding ∷ []) d

  decoded_headers-IsStore : (body : Bytes) → IsStore (decoded_headers d (encoding ∷ []) body)
  unfolding decoded_headers remove_encoding
  decoded_headers-IsStore body =
      set-IsStore (str "content-length") (decimal (length body) ∷ []) _
        (erase-IsStore content_encoding d w)

  get-decoded_headers :
      (other : Str) (body : Bytes)
      → CaseInsensitiveDict.get other (decoded_headers d (encoding ∷ []) body) ≡ (
          if str "content-length" == lower other
          then some (decimal (length body) ∷ [])
          else if content_encoding == lower other
          then none
          else CaseInsensitiveDict.get other d)
  unfolding decoded_headers remove_encoding lower
  get-decoded_headers other body = ground (
    arith,
    get-set (str "content-length") other (decimal (length body) ∷ [])
        (remove_encoding (encoding ∷ []) d),
    get-erase_key content_encoding other d w,
  )

-- The headers of a response, as `CaseInsensitiveDict(response["headers"])`.
abbrev pub headers_of : Response → CaseInsensitiveDict (List Str)
headers_of response = from_pairs response.headers

decoded_once :
    (zlib : Zlib) (response : Response) (encoding : Str)
    → CaseInsensitiveDict.get content_encoding (headers_of response) ≡ some (encoding ∷ [])
    → compression (encoding ∷ []) ≡ some encoding
    → decode_response zlib response ≡ (
        let body = decompress_body zlib response.string encoding in
        record response {
          string = body;
          headers = items (decoded_headers (headers_of response) (encoding ∷ []) body);
        })
unfolding decode_response
decoded_once zlib response encoding named known = rw (named, known)

from_items : {V : Type 0} (d : CaseInsensitiveDict V) → IsStore d → from_pairs (items d) ≡ d
from_items d w = unfold copy in copy-eq_self d w

undecoded :
    (zlib : Zlib) (response : Response)
    → CaseInsensitiveDict.get content_encoding (headers_of response) ≡ none
    → decode_response zlib response ≡ response
unfolding decode_response compression
undecoded zlib response absent = rw absent

encoding_test :
    (body : Bytes) (d : CaseInsensitiveDict (List Str))
    → (if str "content-length" == lower content_encoding
        then some (decimal (length body) ∷ [])
        else if content_encoding == lower content_encoding
        then none
        else CaseInsensitiveDict.get content_encoding d)
      ≡ none
unfolding lower list_eq
encoding_test body d = refl

-- `decode_response` of a response with the one encoding gzip or deflate replaces the body by the
-- decompressed one, deletes the header content-encoding, sets content-length to the decimal length
-- of the new body, and leaves every other header; decoding once more changes nothing.
pub decode_response_decodes :
    (zlib : Zlib) (response : Response) (encoding : Str)
    → CaseInsensitiveDict.get content_encoding (headers_of response) ≡ some (encoding ∷ [])
    → compression (encoding ∷ []) ≡ some encoding
    → (r : Response) × (decode_response zlib response ≡ r)
      × (r.string ≡ decompress_body zlib response.string encoding)
      × ((other : Str)
          → CaseInsensitiveDict.get other (headers_of r) ≡ (
              if str "content-length" == lower other
              then some (decimal (length r.string) ∷ [])
              else if content_encoding == lower other
              then none
              else CaseInsensitiveDict.get other (headers_of response)))
      × (decode_response zlib r ≡ r)
decode_response_decodes zlib response encoding named known =
    let body = decompress_body zlib response.string encoding in
    let d = headers_of response in
    let w = from_pairs-IsStore response.headers in
    let d' = decoded_headers d (encoding ∷ []) body in
    let same = from_items d' (decoded_headers-IsStore d w encoding body) in
    let r : Response = record response { string = body; headers = items d' } in
    let looked_up = λ (other : Str).
      ap (CaseInsensitiveDict.get other) same ∙ get-decoded_headers d w encoding other body in
    (
      r,
      decoded_once zlib response encoding named known,
      refl,
      looked_up,
      undecoded zlib r (looked_up content_encoding ∙ encoding_test body d),
    )
