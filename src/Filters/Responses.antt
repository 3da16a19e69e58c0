-- ===== src/Filters/Responses.antt =====
-- vcrmartin/filters.py, `decode_response`. `zlib.decompress` is a parameter. The value of a header is
-- a list of texts.
pub mod Decoding
use vcrpy.Prelude.{
  Bytes, List, Option, Str, [], if◌then◌else◌, length, ltb, none, some, str, suc, zero, ℕ, ◌%◌, ◌+◌,
  ◌/◌, ◌==◌, ◌||◌, ◌∷◌, List_eq, ℕ_eq,
}
use vcrpy.Dict
use vcrpy.Dict.{Dict, get, insert, erase}
use vcrpy.CaseInsensitiveDict
use vcrpy.CaseInsensitiveDict.{CaseInsensitiveDict, from_pairs, items, set, delete, empty}

-- What a cassette stores of a response; "body" has the one key "string".
pub record Response : Type 0 where
  pub code : ℕ
  pub message : Str
  pub headers : Dict Str (List Str)
  -- `bytes`, or the text "" of a body that was empty.
  pub string : Bytes

pub record Zlib : Type 0 where
  -- `none` is `zlib.error`.
  pub decompress_gzip : Bytes → Option Bytes
  pub decompress_deflate : Bytes → Option Bytes

-- str(n)
unfoldable pub digits_of : ℕ → ℕ → Str → Str
digits_of zero n digits = digits
digits_of (suc fuel) n digits =
    let rest = digits_of fuel (n / 10) ((b'0' + n % 10) ∷ digits) in
    if ltb n 10 then (b'0' + n) ∷ digits else rest

unfoldable pub decimal : ℕ → Str
unfolding digits_of
decimal n = digits_of (suc n) n []

abbrev pub or_empty : Option (List Str) → List Str
or_empty none = []
or_empty (some l) = l

-- is_compressed(headers), with the encoding that it looks at.
unfoldable pub compression : List Str → Option Str
compression [] = none
compression (e ∷ others) = if e == str "gzip" || e == str "deflate" then some e else none

abbrev pub or_body : Bytes → Option Bytes → Bytes
or_body body none = body
or_body body (some decompressed) = decompressed

abbrev pub content_encoding : Str
content_encoding = str "content-encoding"

abbrev spelling_of : Option (Str × List Str) → Str
spelling_of none = content_encoding
spelling_of (some (key, _)) = key

-- headers["content-encoding"].remove(encoding), which changes the list in place and takes the first,
-- and the deletion of an empty list.
unfoldable pub remove_encoding :
    List Str → CaseInsensitiveDict (List Str) → CaseInsensitiveDict (List Str)
remove_encoding (_ ∷ e ∷ others) d = record {
  store =
      Dict.insert content_encoding (spelling_of (Dict.get content_encoding d.store), e ∷ others)
        d.store;
}
remove_encoding _ d = record { store = Dict.erase content_encoding d.store }

-- The headers of a response that was decompressed.
unfoldable pub decoded_headers :
    CaseInsensitiveDict (List Str) → List Str → Bytes → CaseInsensitiveDict (List Str)
unfolding remove_encoding set decimal
decoded_headers headers encodings body =
    set (str "content-length") (decimal (length body) ∷ []) (remove_encoding encodings headers)

module _ (zlib : Zlib) where
  unfoldable pub decompress_body : Bytes → Str → Bytes
  decompress_body [] encoding = []
  decompress_body (b ∷ body) encoding =
      if encoding == str "gzip"
      then or_body (b ∷ body) (zlib.decompress_gzip (b ∷ body))
      else or_body (b ∷ body) (zlib.decompress_deflate (b ∷ body))

  abbrev pub decode_with :
      Response → CaseInsensitiveDict (List Str) → List Str → Option Str → Response
  decode_with response headers encodings none = response
  decode_with response headers encodings (some encoding) =
      let body = decompress_body response.string encoding in
      record response { string = body; headers = items (decoded_headers headers encodings body) }

  unfoldable pub decode_response : Response → Response
  unfolding decompress_body decoded_headers from_pairs items compression
  decode_response response =
      let headers = from_pairs response.headers in
      let encodings = or_empty (CaseInsensitiveDict.get content_encoding headers) in
      decode_with response headers encodings (compression encodings)
