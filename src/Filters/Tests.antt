-- ===== src/Filters/Tests.antt =====
-- Runs of the filters, and the theorems about them at concrete requests and responses.
use vcrpy.Prelude.{
  Bytes, Str, [], if◌then◌else◌, length, list_eq, none, ok, refl, some, str, ℕ, ◌==◌, ◌∷◌, ◌≡◌,
  List_eq, ℕ_eq,
}
use vcrpy.Text.{lower}
use vcrpy.Text.Utf8.{decode, encode}
use vcrpy.Dict
use vcrpy.Dict.{Dict, get, insert}
use vcrpy.CaseInsensitiveDict
use vcrpy.CaseInsensitiveDict.{CaseInsensitiveDict, from_pairs}
use vcrpy.CaseInsensitiveDict.Laws.{IsStore}
use vcrpy.Samples.{parse, small_urllib, get_of, post_of, headers_with, small_zlib}
use vcrpy.Request.Sorting.{sorted}
use vcrpy.Request.{Request, Body, HeaderText, query, get_body}
use vcrpy.Matchers.Bodies.{body_truth}
use vcrpy.Filters.{Replacement}
use vcrpy.Filters.HeaderFilters.{remove_headers}
use vcrpy.Filters.HeaderFilters.Removing.{names_key, remove_headers_removes}
use vcrpy.Filters.Queries.{remove_query_parameters}
use vcrpy.Filters.Queries.Removing.{unnamed, AllUnnamed, remove_query_parameters_removes}
use vcrpy.Filters.PostData.{
  Json, split, join, partition, remove_post_data_parameters, replace_bytes,
}
use vcrpy.Filters.PostData.Fields.{IsForm, unnamed_parts, remove_post_data_removes}
use vcrpy.Filters.Responses.{
  Response, content_encoding, decimal, decompress_body, compression, decode_response,
}
use vcrpy.Filters.Responses.Decoding.{headers_of, decode_response_decodes}

remove_headers_removes_example :
    (headers : CaseInsensitiveDict HeaderText) × (remove_headers
        (get_of (str "/"))
        (str "Cookie" ∷ [])
      ≡ ok (record (get_of (str "/")) { headers = headers }))
    × IsStore headers
    × ((other : Str)
        → CaseInsensitiveDict.get other headers ≡ (
            if names_key (str "Cookie" ∷ []) other
            then none
            else CaseInsensitiveDict.get other (headers_with (str "cookie") (str "c"))))
remove_headers_removes_example =
    remove_headers_removes (get_of (str "/")) (str "Cookie" ∷ [])
      (record { lowered = (unfold lower in refl, tt); distinct = (unfold Dict.get in refl, tt) })

abbrev ab : Request
ab = get_of (str "/p?b=2&a=1")

remove_query_parameters_removes_example :
    (r : Request) × (remove_query_parameters small_urllib ab (str "a" ∷ []) ≡ ok r)
    × (r ≡ record ab {
      uri = small_urllib.urlunparse (record (parse (str "/p?b=2&a=1")) {
        query = small_urllib.urlencode (unnamed (str "a" ∷ []) (query small_urllib ab));
      });
      parsed_uri = parse (str "/p?b=2");
    })
    × (query small_urllib r ≡ sorted (unnamed (str "a" ∷ []) (query small_urllib ab)))
    × AllUnnamed (str "a" ∷ []) (query small_urllib r)
remove_query_parameters_removes_example =
    remove_query_parameters_removes small_urllib ab (str "a" ∷ []) (parse (str "/p?b=2&a=1"))
      (parse (str "/p?b=2"))
      (unfold query sorted split join partition list_eq in
        record { parsed = refl; reparsed = refl; decoded = refl })

-- A parser and a printer that know the empty object alone.
abbrev no_json : Json ℕ
no_json = record {
  loads = λ _. ok [];
  dumps = λ _. str "{}";
  of_replacement = λ _. Replacement.remove;
}

abbrev form_bytes : Bytes
form_bytes = str "user=me&password=x&&flag"

password-IsForm : IsForm (post_of form_bytes) form_bytes
unfolding get_body body_truth CaseInsensitiveDict.get lower Dict.get list_eq split partition decode
password-IsForm = record {
  is_post = refl;
  has_bytes = refl;
  not_empty = refl;
  not_json = refl;
  text_keys = ((_, refl), ((_, refl), ((_, refl), ((_, refl), tt))));
}

remove_post_data_removes_example :
    remove_post_data_parameters no_json (post_of form_bytes) (str "password" ∷ [])
    ≡ ok (record (post_of form_bytes) {
      stored_body =
          Body.binary (join b'&' (unnamed_parts (str "password" ∷ []) (split b'&' form_bytes)));
    })
remove_post_data_removes_example =
    remove_post_data_removes no_json (post_of form_bytes) form_bytes (str "password" ∷ [])
      password-IsForm

-- A field without a value, replaced by a text, becomes one word.
replaced_flag :
    replace_bytes
      (post_of (str "flag"))
      ((str "flag", Replacement.value (str "x")) ∷ [])
      (str "flag")
    ≡ ok (post_of (str "flagx"))
unfolding replace_bytes list_eq decode encode Dict.get
replaced_flag = refl

abbrev zipped : Response
zipped = record {
  code = 200;
  message = str "OK";
  headers = (str "Content-Encoding", str "gzip" ∷ []) ∷ (str "Content-Length", str "4" ∷ []) ∷ [];
  string = str "zabc";
}

decode_response_decodes_example :
    (r : Response) × (decode_response small_zlib zipped ≡ r)
    × (r.string ≡ decompress_body small_zlib (str "zabc") (str "gzip"))
    × ((other : Str)
        → CaseInsensitiveDict.get other (headers_of r) ≡ (
            if str "content-length" == lower other
            then some (decimal (length r.string) ∷ [])
            else if content_encoding == lower other
            then none
            else CaseInsensitiveDict.get other (headers_of zipped)))
    × (decode_response small_zlib r ≡ r)
decode_response_decodes_example =
    decode_response_decodes small_zlib zipped (str "gzip")
      (unfold CaseInsensitiveDict.get from_pairs lower Dict.insert Dict.get list_eq in refl)
      (unfold compression list_eq in refl)
