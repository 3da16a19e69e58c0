-- ===== src/Config/Creation.antt =====
-- vcrmartin/config.py, `VCR.__init__`: the options that are given, and what stands for the others.
use vcrpy.Dict
use vcrpy.Dict.{Dict, get}
use vcrpy.RecordMode.{RecordMode}
use vcrpy.Matching.{Matcher}
use vcrpy.Request.{Request, Urllib}
use vcrpy.Matchers.{
  Shown, of_request, method_matcher, uri_matcher, host_matcher, scheme_matcher, port_matcher,
  path_matcher, query_matcher, headers_matcher, raw_body_matcher, body_matcher, default_matchers,
}
use vcrpy.Matchers.Bodies.{Loaders}
use vcrpy.Serialize.{Serializer}
use vcrpy.Config.{Vcr, Kwargs, pick, get_matchers}
use vcrpy.Config.Filtering.{Callbacks}
use vcrpy.Prelude.{
  Bool, List, Result, Str, [], err, false, if◌then◌else◌, is_some, list_eq, none, ok, raised, refl,
  str, true, type_error, ◌||◌, ◌∷◌, ◌≡◌, ℕ_eq, List_eq,
}

-- The modules yamlserializer and jsonserializer.
pub record Serializers : Type 0 where
  pub yaml : Serializer
  pub json : Serializer

-- before_record_request or before_record; an empty iterable is false.
abbrev or_else : {A : Type 0} → Callbacks A → Callbacks A → Callbacks A
or_else Callbacks.absent other = other
or_else (Callbacks.iterable []) other = other
or_else (Callbacks.iterable (f ∷ functions)) other = Callbacks.iterable (f ∷ functions)
or_else (Callbacks.one f) other = Callbacks.one f

-- The arguments that a call of `use_cassette` has and `VCR` has not.
abbrev is_unexpected : Kwargs → Bool
is_unexpected kwargs =
    is_some kwargs.additional_matchers
    || is_some kwargs.allow_playback_repeats
    || is_some kwargs.path

abbrev default_match_on : List Str
default_match_on =
    str "method" ∷ str "scheme" ∷ str "host" ∷ str "port" ∷ str "path" ∷ str "query" ∷ []

module _ {D : Type 0} (urllib : Urllib) (shown : Shown) (loaders : Loaders D)
    (serializers : Serializers) where
  -- self.matchers
  unfoldable pub all_matchers : Dict Str (Matcher Request)
  unfolding method_matcher uri_matcher host_matcher scheme_matcher port_matcher path_matcher
      query_matcher headers_matcher raw_body_matcher body_matcher of_request
  all_matchers =
      (str "method", record { name = "method"; run = of_request method_matcher })
      ∷ (str "uri", record { name = "uri"; run = of_request uri_matcher })
      ∷ (str "url", record { name = "uri"; run = of_request uri_matcher })
      ∷ (str "scheme", record { name = "scheme"; run = of_request scheme_matcher })
      ∷ (str "host", record { name = "host"; run = of_request (host_matcher shown) })
      ∷ (str "port", record { name = "port"; run = of_request (port_matcher shown) })
      ∷ (str "path", record { name = "path"; run = of_request path_matcher })
      ∷ (str "query", record { name = "query"; run = of_request (query_matcher urllib shown) })
      ∷ (str "headers", record { name = "headers"; run = of_request (headers_matcher shown) })
      ∷ (str "raw_body", record { name = "raw_body"; run = of_request raw_body_matcher })
      ∷ (str "body", record { name = "body"; run = of_request (body_matcher loaders) })
      ∷ []

  abbrev created : Kwargs → Vcr
  unfolding all_matchers
  created kwargs = record {
    serializers = (str "yaml", serializers.yaml) ∷ (str "json", serializers.json) ∷ [];
    serializer = pick kwargs.serializer (str "yaml");
    func_path_generator = pick kwargs.func_path_generator none;
    matchers = all_matchers;
    match_on = pick kwargs.match_on default_match_on;
    record_mode = pick kwargs.record_mode RecordMode.once;
    cassette_library_dir = pick kwargs.cassette_library_dir [];
    path_transformer = pick kwargs.path_transformer none;
    filter_headers = pick kwargs.filter_headers [];
    filter_query_parameters = pick kwargs.filter_query_parameters [];
    filter_post_data_parameters = pick kwargs.filter_post_data_parameters [];
    before_record_request =
        or_else (pick kwargs.before_record_request Callbacks.absent)
          (pick kwargs.before_record Callbacks.absent);
    before_record_response = pick kwargs.before_record_response Callbacks.absent;
    ignore_hosts = pick kwargs.ignore_hosts [];
    ignore_localhost = pick kwargs.ignore_localhost false;
    inject_cassette = pick kwargs.inject_cassette false;
    decode_compressed_response = pick kwargs.decode_compressed_response false;
    record_on_exception = pick kwargs.record_on_exception true;
    drop_unused_requests = pick kwargs.drop_unused_requests false;
  }

  -- `VCR(**kwargs)`
  unfoldable pub create : Kwargs → Result Vcr
  unfolding all_matchers
  create kwargs = if is_unexpected kwargs then err (raised type_error) else ok (created kwargs)

  -- The names that `match_on` has by default are those of the default matchers.
  pub default_names_match :
      get_matchers all_matchers default_match_on ≡ ok (default_matchers urllib shown)
  unfolding get_matchers all_matchers default_matchers Dict.get list_eq
  default_names_match = refl
