-- ===== src/Config.antt =====
-- vcrmartin/config.py, `class VCR`: the options, what a call overrides, and the configuration of a
-- cassette that is made of both. The persister and `custom_patches`, which nothing reads, are left
-- out.
pub mod Filtering
pub mod Paths
pub mod Recorded
pub mod Using
pub mod Folders
pub mod Opened
pub mod Creation
mod TestCase
mod CallTests
mod Tests
use vcrpy.Prelude.{
  Bool, List, Option, Result, Str, [], err, false, key_error, none, ok, raised, some, ◌++◌, ◌>>=◌,
  ◌∷◌, List_eq, ℕ_eq, Option_eq,
}
use vcrpy.Dict
use vcrpy.Dict.{Dict, get, insert}
use vcrpy.RecordMode.{RecordMode}
use vcrpy.Matching.{Matcher}
use vcrpy.Request.{Request, Urllib, HeaderText}
use vcrpy.Filters.PostData.{Json}
use vcrpy.Filters.Responses.{Response, Zlib}
use vcrpy.Cassette.{Settings}
use Filtering.{
  FilterItem, Callbacks, RequestOptions, build_before_record_request, build_before_record_response,
}
use vcrpy.Serialize.{Serializer}
use Paths.{Function, PathGenerator, PathTransformer, path_transformer_of, path_generator_of}

-- The attributes of a `VCR`, and its tables of serializers and matchers.
pub record Vcr : Type 0 where
  pub serializers : Dict Str Serializer
  pub serializer : Str
  pub func_path_generator : Option PathGenerator
  pub matchers : Dict Str (Matcher Request)
  pub match_on : List Str
  pub record_mode : RecordMode
  pub cassette_library_dir : Str
  pub path_transformer : Option PathTransformer
  pub filter_headers : List (FilterItem HeaderText)
  pub filter_query_parameters : List (FilterItem Str)
  pub filter_post_data_parameters : List (FilterItem Str)
  pub before_record_request : Callbacks Request
  pub before_record_response : Callbacks Response
  pub ignore_hosts : List Str
  pub ignore_localhost : Bool
  pub inject_cassette : Bool
  pub decode_compressed_response : Bool
  pub record_on_exception : Bool
  pub drop_unused_requests : Bool

-- The keyword arguments of a call; `none` is one that is missing.
pub record Kwargs : Type 0 where
  pub serializer : Option Str
  pub func_path_generator : Option (Option PathGenerator)
  pub match_on : Option (List Str)
  pub additional_matchers : Option (List Str)
  pub record_mode : Option RecordMode
  pub cassette_library_dir : Option Str
  pub path_transformer : Option (Option PathTransformer)
  pub filter_headers : Option (List (FilterItem HeaderText))
  pub filter_query_parameters : Option (List (FilterItem Str))
  pub filter_post_data_parameters : Option (List (FilterItem Str))
  pub before_record_request : Option (Callbacks Request)
  pub before_record : Option (Callbacks Request)
  pub before_record_response : Option (Callbacks Response)
  pub ignore_hosts : Option (List Str)
  pub ignore_localhost : Option Bool
  pub inject_cassette : Option Bool
  pub decode_compressed_response : Option Bool
  pub record_on_exception : Option Bool
  pub drop_unused_requests : Option Bool
  pub allow_playback_repeats : Option Bool
  pub path : Option Str

-- A call without keyword arguments.
abbrev pub no_kwargs : Kwargs
no_kwargs = record {
  serializer = none;
  func_path_generator = none;
  match_on = none;
  additional_matchers = none;
  record_mode = none;
  cassette_library_dir = none;
  path_transformer = none;
  filter_headers = none;
  filter_query_parameters = none;
  filter_post_data_parameters = none;
  before_record_request = none;
  before_record = none;
  before_record_response = none;
  ignore_hosts = none;
  ignore_localhost = none;
  inject_cassette = none;
  decode_compressed_response = none;
  record_on_exception = none;
  drop_unused_requests = none;
  allow_playback_repeats = none;
  path = none;
}

-- What `get_merged_config` returns.
pub record Config : Type 0 where
  pub serializer : Serializer
  pub settings : Settings Request Response
  pub func_path_generator : Option PathGenerator
  pub path_transformer : Option PathTransformer
  pub record_on_exception : Bool
  pub path : Option Str

-- kwargs.get(key, default)
abbrev pub pick {ℓ} : {A : Type ℓ} → Option A → A → A
pick none default = default
pick (some a) default = a

-- `_get_matchers`
unfoldable pub get_matchers :
    Dict Str (Matcher Request) → List Str → Result (List (Matcher Request))
get_matchers table [] = ok []
get_matchers table (name ∷ names) = do
  matcher ← elim (Dict.get name table) [ none ↦ err (raised key_error) | some m ↦ ok m ]
  others ← get_matchers table names
  ok (matcher ∷ others)

-- `_get_serializer`
unfoldable pub get_serializer : Dict Str Serializer → Str → Result Serializer
get_serializer table name = elim (Dict.get name table) [
  | none ↦ err (raised key_error)
  | some s ↦ ok s
]

-- `register_serializer`
unfoldable pub register_serializer : Str → Serializer → Vcr → Vcr
register_serializer name serializer vcr = record vcr {
  serializers = Dict.insert name serializer vcr.serializers;
}

-- if path: merged_config["path"] = path
abbrev pub given_path : Option Str → Option Str
given_path none = none
given_path (some []) = none
given_path (some (c ∷ path)) = some (c ∷ path)

-- `register_matcher`
unfoldable pub register_matcher : Str → Matcher Request → Vcr → Vcr
register_matcher name matcher vcr = record vcr { matchers = Dict.insert name matcher vcr.matchers }

-- The options that `_build_before_record_request` reads.
unfoldable pub request_options : Vcr → Kwargs → RequestOptions
request_options vcr kwargs = record {
  filter_headers = pick kwargs.filter_headers vcr.filter_headers;
  filter_query_parameters = pick kwargs.filter_query_parameters vcr.filter_query_parameters;
  filter_post_data_parameters =
      pick kwargs.filter_post_data_parameters vcr.filter_post_data_parameters;
  before_record_request =
      pick kwargs.before_record_request (pick kwargs.before_record vcr.before_record_request);
  ignore_hosts = pick kwargs.ignore_hosts vcr.ignore_hosts;
  ignore_localhost = pick kwargs.ignore_localhost vcr.ignore_localhost;
}

module _ {J : Type 0} (urllib : Urllib) (codec : Json J) (zlib : Zlib) where
  unfoldable pub get_merged_config : Vcr → Kwargs → Result Config
  unfolding get_matchers request_options build_before_record_request build_before_record_response
      path_transformer_of path_generator_of get_serializer
  get_merged_config vcr kwargs = do
    serializer ← get_serializer vcr.serializers (pick kwargs.serializer vcr.serializer)
    matchers ←
        get_matchers vcr.matchers
          (pick kwargs.match_on vcr.match_on ++ pick kwargs.additional_matchers [])
    ok (record {
      serializer = serializer;
      settings = record {
        record_mode = pick kwargs.record_mode vcr.record_mode;
        match_on = matchers;
        before_record_request =
            build_before_record_request urllib codec (request_options vcr kwargs);
        before_record_response =
            build_before_record_response zlib
              (pick kwargs.decode_compressed_response vcr.decode_compressed_response)
              (pick kwargs.before_record_response vcr.before_record_response);
        inject = pick kwargs.inject_cassette vcr.inject_cassette;
        allow_playback_repeats = pick kwargs.allow_playback_repeats false;
        drop_unused_requests = pick kwargs.drop_unused_requests vcr.drop_unused_requests;
      };
      path_transformer =
          path_transformer_of (pick kwargs.cassette_library_dir vcr.cassette_library_dir)
            (pick kwargs.path_transformer vcr.path_transformer);
      record_on_exception = pick kwargs.record_on_exception vcr.record_on_exception;
      func_path_generator =
          path_generator_of (pick kwargs.cassette_library_dir vcr.cassette_library_dir)
            (pick kwargs.func_path_generator vcr.func_path_generator);
      path = given_path kwargs.path;
    })
