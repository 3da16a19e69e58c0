-- ===== src/Config/CallTests.antt =====
-- The theorems about the options of calls at concrete ones.
use vcrpy.RecordMode.{RecordMode}
use vcrpy.Text.{starts_with}
use vcrpy.Samples.{small_urllib, small_zlib, nothing, no_json, plain}
use vcrpy.Dict
use vcrpy.Filters.Responses.{Response}
use vcrpy.Request.{Request, path}
use vcrpy.Serialize.{Serializer}
use vcrpy.Cassette.Storage.{Persister, load, save}
use vcrpy.Context.{handle_function, put_at, reset, enter, exit}
use vcrpy.Config.{no_kwargs, Vcr, Config, get_merged_config, get_matchers, get_serializer}
use vcrpy.Config.Filtering.{Callbacks}
use vcrpy.Config.Paths.{
  Function, add_cassette_library_dir, path_generator_of, path_transformer_of, compose,
  build_path_from_func_using_module, dirname, ends_with, join_paths,
}
use vcrpy.Config.Using.{
  ArgsGetter, use_cassette, call_decorated, build_args_getter_for_decorator, opened_path,
  arguments_of,
}
use vcrpy.Config.Folders.{IsFolder, default_path}
use vcrpy.Config.Opened.{decorated_opens_default}
use vcrpy.Prelude.{
  Str, [], arith, cassette_not_found, err, false, is_some, list_eq, none, ok, raised, refl, str,
  suc, true, ℕ, ◌∷◌, ◌≡◌, ℕ_eq, List_eq, String_eq,
}

abbrev vcr_in : Str → Vcr
vcr_in folder = record {
  serializers = (str "yaml", plain) ∷ [];
  serializer = str "yaml";
  func_path_generator = none;
  matchers = (str "method", nothing) ∷ [];
  match_on = str "method" ∷ [];
  record_mode = RecordMode.once;
  cassette_library_dir = folder;
  path_transformer = none;
  filter_headers = [];
  filter_query_parameters = [];
  filter_post_data_parameters = [];
  before_record_request = Callbacks.absent;
  before_record_response = Callbacks.absent;
  ignore_hosts = [];
  ignore_localhost = false;
  inject_cassette = false;
  decode_compressed_response = false;
  record_on_exception = true;
  drop_unused_requests = false;
}

abbrev test_function : Function
test_function = record { name = str "test_a"; file = str "/t/tests.py" }

abbrev late : ArgsGetter
late later = get_merged_config small_urllib no_json small_zlib later no_kwargs

config_late : (config : Config) × (late (vcr_in (str "/cass")) ≡ ok config)
unfolding get_merged_config get_matchers get_serializer Dict.get list_eq
config_late = (_, refl)

cass-IsFolder : IsFolder (str "/cass")
cass-IsFolder = record { front = str "/cas"; last = b's'; parts = refl; open_end = omega arith }

decorated_opens_default_example :
    opened_path (build_args_getter_for_decorator test_function late) (vcr_in (str "/cass"))
    ≡ ok (str "/cass/test_a")
decorated_opens_default_example =
    decorated_opens_default small_urllib no_json small_zlib false no_kwargs (vcr_in [])
      (vcr_in (str "/cass")) late test_function config_late.0 (str "/cass")
      (unfold use_cassette in refl) config_late.1 refl refl refl cass-IsFolder
      (refl, unfold starts_with list_eq in refl) (unfold starts_with in refl)

path_in_folder : default_path (str "/cass") test_function ≡ str "/cass/test_a"
unfolding default_path add_cassette_library_dir starts_with join_paths ends_with list_eq
path_in_folder = refl

path_beside_file : default_path [] test_function ≡ str "/t/test_a"
unfolding default_path build_path_from_func_using_module dirname starts_with join_paths ends_with
    list_eq
path_beside_file = refl

abbrev empty_storage : Serializer → Str → Persister Request Response ℕ
empty_storage serializer path = record {
  load_cassette = λ _. err (raised cassette_not_found);
  save_cassette = λ saves _. ok (suc saves);
}

called :
    (call_decorated empty_storage late test_function
      (λ cassette s. (ok (is_some cassette), s))
      (vcr_in (str "/cass"))
      (record { cassettes = []; current = none; world = 0 })).0
    ≡ ok false
unfolding call_decorated build_args_getter_for_decorator arguments_of get_merged_config get_matchers
    get_serializer Dict.get list_eq handle_function enter exit load save reset put_at
    path_generator_of path_transformer_of compose
called = refl
