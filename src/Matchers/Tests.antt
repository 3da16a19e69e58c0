-- ===== src/Matchers/Tests.antt =====
-- Runs of the matchers, and the theorems about them at concrete requests.
use vcrpy.Prelude.{
  List, String, [], arith, assertion_error, concat, err, if◌then◌else◌, list_eq, none, ok, refl,
  some, str, true, ◌==◌, ◌↔◌, ◌∷◌, ◌≡◌, List_eq, ℕ_eq,
}
use vcrpy.Text.{lower, is_in}
use vcrpy.Dict
use vcrpy.CaseInsensitiveDict
use vcrpy.Samples.{small_urllib, get_of, post_of, headers_with, shown, no_loaders}
use vcrpy.Dechunk.{is_hexdigit, int_of_hex}
use vcrpy.Dechunk.Decoding.{Piece, encoded, contents_of}
use vcrpy.Request.{Request, read_body}
use vcrpy.Matching.{requests_match}
use vcrpy.Matchers.Bodies.{get_transformers}
use vcrpy.Matchers.Laws.{Agree, IsChunked, default_match_iff, body_matcher_of_chunked}
use vcrpy.Matchers.{default_matchers, body_matcher}

default_match_iff_example :
    (requests_match
        (some (get_of (str "/p?b=2&a=1")))
        (get_of (str "/p?a=1&b=2"))
        (default_matchers small_urllib shown)
      ≡ ok true)
    ↔ Agree small_urllib (get_of (str "/p?b=2&a=1")) (get_of (str "/p?a=1&b=2"))
default_match_iff_example =
    default_match_iff small_urllib shown (get_of (str "/p?b=2&a=1")) (get_of (str "/p?a=1&b=2"))

abbrev piece : String → String → Piece
piece digits contents = record { digits = str digits; contents = str contents }

abbrev one_chunk : List Piece
one_chunk = piece "2" "ab" ∷ []

abbrev two_chunks : List Piece
two_chunks = piece "01" "a" ∷ piece "1" "b" ∷ []

abbrev chunked_of : List Piece → Request
chunked_of ps = record (post_of (encoded (str "0") [] ps)) {
  headers = headers_with (str "transfer-encoding") (str "Chunked");
}

one_chunk-IsChunked : IsChunked (chunked_of one_chunk) (str "0") [] one_chunk
unfolding get_transformers read_body CaseInsensitiveDict.get Dict.get list_eq lower is_in
    is_hexdigit int_of_hex
one_chunk-IsChunked = record {
  asks = refl;
  has_body = refl;
  has_end = record { hexadecimal = (refl, tt); zero_size = refl };
  are_pieces = (record { hexadecimal = (refl, tt); size = refl; non_empty = omega arith }, tt);
}

two_chunks-IsChunked : IsChunked (chunked_of two_chunks) (str "0") [] two_chunks
unfolding get_transformers read_body CaseInsensitiveDict.get Dict.get list_eq lower is_in
    is_hexdigit int_of_hex
two_chunks-IsChunked = record {
  asks = refl;
  has_body = refl;
  has_end = record { hexadecimal = (refl, tt); zero_size = refl };
  are_pieces = (
    record { hexadecimal = (refl, (refl, tt)); size = refl; non_empty = omega arith },
    (record { hexadecimal = (refl, tt); size = refl; non_empty = omega arith }, tt),
  );
}

body_matcher_of_chunked_example :
    body_matcher no_loaders (chunked_of one_chunk) (chunked_of two_chunks) ≡ (
      if concat (contents_of one_chunk) == concat (contents_of two_chunks)
      then ok none
      else err (assertion_error []))
body_matcher_of_chunked_example =
    body_matcher_of_chunked no_loaders (chunked_of one_chunk) (chunked_of two_chunks) (str "0")
      (str "0") [] [] one_chunk two_chunks one_chunk-IsChunked two_chunks-IsChunked
