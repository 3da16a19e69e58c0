-- ===== src/Matchers.antt =====
-- vcrmartin/matchers.py, the matcher functions and what they compare. What Python's formatting
-- makes of the compared values, for the messages, is a parameter.
pub mod Bodies
pub mod Laws
mod Tests
use vcrpy.Prelude.{
  Bool, List, Option, Result, Str, [], assertion_error, attribute_error, err, false, length, none,
  ok, raised, some, str, true, ℕ, ◌&&◌, ◌++◌, ◌==◌, ◌>>=◌, ◌∷◌, List_eq, ℕ_eq, Option_eq, Pair_eq,
}
use vcrpy.Dict.{Dict, get}
use vcrpy.CaseInsensitiveDict.{CaseInsensitiveDict, lower_items}
use vcrpy.Request.Sorting.{Pair}
use vcrpy.Request.{
  HeaderText, Headers, Request, Urllib, binary, host, read_body, text, path, port, query, scheme,
}
use vcrpy.Matching.{Matcher}
use Bodies.{Loaders, same_body, Content, same_content, transformed}

-- The messages, which begin with the two values.
pub record Shown : Type 0 where
  pub of_port : Option ℕ → Str
  pub of_host : Option Str → Str
  pub of_query : List Pair → Str
  pub of_headers : Headers → Str

unfoldable pub same_text : HeaderText → HeaderText → Bool
same_text (HeaderText.text a) (HeaderText.text b) = a == b
same_text (HeaderText.binary a) (HeaderText.binary b) = a == b
same_text _ _ = false

unfoldable pub has_entry : Option HeaderText → HeaderText → Bool
unfolding same_text
has_entry none v = false
has_entry (some w) v = same_text w v

unfoldable pub has_entries : Dict Str HeaderText → Dict Str HeaderText → Bool
unfolding has_entry
has_entries [] d = true
has_entries ((k, v) ∷ rest) d = has_entry (get k d) v && has_entries rest d

-- `CaseInsensitiveDict.__eq__`: `==` of two dictionaries.
unfoldable pub same_headers : Headers → Headers → Bool
unfolding has_entries
same_headers a b =
    length (lower_items a) == length (lower_items b) && has_entries (lower_items a) (lower_items b)

-- if not same: raise AssertionError(message)
abbrev pub assert_same : Bool → Str → Result (Option Bool)
assert_same true message = ok none
assert_same false message = err (assertion_error message)

abbrev pub message_of : Str → Str → Str
message_of a b = a ++ str " != " ++ b

-- A request that a filter dropped is `None`, which has no attributes.
unfoldable pub of_request :
    (Request → Request → Result (Option Bool)) → Option Request → Request → Result (Option Bool)
of_request compare none r2 = err (raised attribute_error)
of_request compare (some r1) r2 = compare r1 r2

unfoldable pub method_matcher : Request → Request → Result (Option Bool)
method_matcher r1 r2 = assert_same (r1.method == r2.method) (message_of r1.method r2.method)

unfoldable pub uri_matcher : Request → Request → Result (Option Bool)
uri_matcher r1 r2 = assert_same (r1.uri == r2.uri) (message_of r1.uri r2.uri)

unfoldable pub scheme_matcher : Request → Request → Result (Option Bool)
scheme_matcher r1 r2 = assert_same (scheme r1 == scheme r2) (message_of (scheme r1) (scheme r2))

unfoldable pub path_matcher : Request → Request → Result (Option Bool)
path_matcher r1 r2 = assert_same (path r1 == path r2) (message_of (path r1) (path r2))

unfoldable pub raw_body_matcher : Request → Request → Result (Option Bool)
unfolding read_body
raw_body_matcher r1 r2 = do b1 ← read_body r1; b2 ← read_body r2; assert_same (same_body b1 b2) []

unfoldable pub body_matcher : {D : Type 0} → Loaders D → Request → Request → Result (Option Bool)
unfolding transformed
body_matcher loaders r1 r2 = do
  (b1, b2) ← transformed loaders r1 r2
  assert_same (same_content loaders b1 b2) []

module _ (shown : Shown) where
  unfoldable pub host_matcher : Request → Request → Result (Option Bool)
  host_matcher r1 r2 =
      assert_same (host r1 == host r2)
        (message_of (shown.of_host (host r1)) (shown.of_host (host r2)))

  unfoldable pub port_matcher : Request → Request → Result (Option Bool)
  port_matcher r1 r2 = do
    p1 ← port r1
    p2 ← port r2
    assert_same (p1 == p2) (message_of (shown.of_port p1) (shown.of_port p2))

  unfoldable pub headers_matcher : Request → Request → Result (Option Bool)
  unfolding same_headers
  headers_matcher r1 r2 =
      assert_same (same_headers r1.headers r2.headers)
        (message_of (shown.of_headers r1.headers) (shown.of_headers r2.headers))

module _ (urllib : Urllib) (shown : Shown) where
  unfoldable pub query_matcher : Request → Request → Result (Option Bool)
  query_matcher r1 r2 =
      assert_same (query urllib r1 == query urllib r2)
        (message_of (shown.of_query (query urllib r1)) (shown.of_query (query urllib r2)))

  -- The entries of `VCR.matchers` that `match_on` names by default.
  unfoldable pub default_matchers : List (Matcher Request)
  unfolding method_matcher scheme_matcher host_matcher port_matcher path_matcher query_matcher
      of_request
  default_matchers =
      record { name = "method"; run = of_request method_matcher }
      ∷ record { name = "scheme"; run = of_request scheme_matcher }
      ∷ record { name = "host"; run = of_request (host_matcher shown) }
      ∷ record { name = "port"; run = of_request (port_matcher shown) }
      ∷ record { name = "path"; run = of_request path_matcher }
      ∷ record { name = "query"; run = of_request query_matcher }
      ∷ []
