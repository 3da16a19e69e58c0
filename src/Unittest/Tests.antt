-- ===== src/Unittest/Tests.antt =====
-- A test case at a concrete place.
use vcrpy.Samples.{small_urllib, small_zlib, no_json, plain, shown, no_loaders}
use vcrpy.Text.{starts_with}
use vcrpy.Dict
use vcrpy.Request.{Request, path}
use vcrpy.Filters.Responses.{Response}
use vcrpy.Serialize.{Serializer}
use vcrpy.Cassette.{Cassette}
use vcrpy.Cassette.Storage.{Persister, load, save}
use vcrpy.Context.{Context, enter, save_own, put_at}
use vcrpy.Config.{no_kwargs, get_merged_config, get_matchers, get_serializer}
use vcrpy.Config.Paths.{
  dirname, join_paths, ends_with, add_cassette_library_dir, path_transformer_of, compose,
}
use vcrpy.Config.Creation.{Serializers, create, all_matchers}
use vcrpy.Config.Using.{use_cassette, arguments_of}
use vcrpy.Unittest.{
  Test, Opened, get_cassette_library_dir, get_cassette_name, with_library_dir, get_vcr, config_of,
  opened_with, set_up, clean_up,
}
use vcrpy.Unittest.Running.{clean_up_saves}
use vcrpy.Prelude.{
  Str, [], cassette_not_found, err, false, list_eq, map, none, ok, raised, refl, some, str, suc,
  true, ℕ, ◌∷◌, ◌≡◌, ℕ_eq, List_eq,
}

abbrev serializers : Serializers
serializers = record { yaml = plain; json = plain }

-- A test that is not to be recorded where it fails.
abbrev test_a : Test
test_a = record {
  class_name = str "TestA";
  class_file = str "/t/test_a.py";
  method_name = str "test_get";
  vcr_enabled = true;
  get_vcr_kwargs = record no_kwargs { record_on_exception = some false };
}

-- The storage counts the saves.
abbrev counting : Serializer → Str → Persister Request Response ℕ
counting serializer path = record {
  load_cassette = λ _. err (raised cassette_not_found);
  save_cassette = λ saves _. ok (suc saves);
}

abbrev before : Context Request Response ℕ
before = record { cassettes = []; current = some 9; world = 0 }

test_set_up :
    (r : Opened Request Response × Context Request Response ℕ) × (set_up small_urllib shown
        no_loaders serializers no_json small_zlib counting test_a before
      ≡ ok (some r.0, r.1))
unfolding set_up config_of get_vcr create with_library_dir get_cassette_library_dir opened_with
    use_cassette get_merged_config get_matchers get_serializer Dict.get list_eq all_matchers
    arguments_of enter path_transformer_of compose load add_cassette_library_dir
test_set_up = (_, refl)

abbrev opened : Opened Request Response
opened = test_set_up.0.0

path_of_test :
    map (λ (c : Str × Cassette Request Response). c.0) test_set_up.0.1.cassettes
    ≡ str "/t/cassettes/TestA.test_get.yaml" ∷ []
unfolding test_set_up get_cassette_name get_cassette_library_dir dirname join_paths ends_with
    starts_with list_eq add_cassette_library_dir compose path_transformer_of
path_of_test = refl

-- The test has recorded something, and has left another cassette installed.
abbrev left_dirty : Str × Cassette Request Response → Str × Cassette Request Response
left_dirty (path, c) = (path, record c { dirty = true })

abbrev left : Context Request Response ℕ
left = record test_set_up.0.1 {
  cassettes = map left_dirty test_set_up.0.1.cassettes;
  current = some 3;
}

test_saved :
    (s3 : Context Request Response ℕ) × (save_own
        (counting opened.serializer)
        (some opened.cassette)
        left
      ≡ (none, s3))
unfolding test_set_up save_own save put_at
test_saved = (_, refl)

one_save : test_saved.0.world ≡ 1
unfolding test_saved test_set_up save_own save put_at
one_save = refl

clean_up_saves_example :
    ((clean_up small_urllib shown no_loaders serializers no_json small_zlib counting opened
        (ok false)
        left).0
      ≡ none)
    × ((clean_up small_urllib shown no_loaders serializers no_json small_zlib counting opened
          (ok false)
          left).2
        ≡ record test_saved.0 { current = some 9 })
clean_up_saves_example =
    clean_up_saves counting small_urllib shown no_loaders serializers no_json small_zlib test_a
      before test_set_up.0.1 left test_saved.0 opened (ok false) false refl test_set_up.1
      test_saved.1
