-- ===== src/Unittest.antt =====
-- vcrmartin/unittest.py, `VCRMixin`: each test of a case opens a cassette of its own, and a clean-up
-- leaves it. `unittest` calls `setUp`, the test and the clean-up, in this order.
pub mod Running
mod Tests
use vcrpy.Dict
use vcrpy.Request.{Request, Urllib, path}
use vcrpy.Matchers.{Shown}
use vcrpy.Matchers.Bodies.{Loaders}
use vcrpy.Filters.PostData.{Json}
use vcrpy.Filters.Responses.{Response, Zlib}
use vcrpy.Serialize.{Serializer}
use vcrpy.Cassette.Storage.{Persister}
use vcrpy.Context.{Arguments, Context, Decorator, enter, exit}
use vcrpy.Config.{no_kwargs, Vcr, Kwargs, Config, get_merged_config}
use vcrpy.Config.Paths.{dirname, join_paths}
use vcrpy.Config.Creation.{Serializers, create}
use vcrpy.Config.Using.{ArgsGetter, use_cassette, arguments_of}
use vcrpy.Prelude.{
  Bool, Error, Option, Result, Str, false, if◌then◌else◌, none, not, ok, some, str, ℕ, ◌++◌, ◌>>=◌,
  ℕ_eq,
}

-- A test: its class with the file of it, its method, and what the class says about cassettes.
pub record Test : Type 0 where
  pub class_name : Str
  pub class_file : Str
  pub method_name : Str
  pub vcr_enabled : Bool
  pub get_vcr_kwargs : Kwargs

-- `_get_cassette_library_dir`
unfoldable pub get_cassette_library_dir : Test → Str
unfolding dirname join_paths
get_cassette_library_dir t = join_paths (dirname t.class_file) (str "cassettes")

-- `_get_cassette_name`
unfoldable pub get_cassette_name : Test → Str
get_cassette_name t = t.class_name ++ str "." ++ t.method_name ++ str ".yaml"

-- if "cassette_library_dir" not in kwargs: kwargs["cassette_library_dir"] = ...
unfoldable pub with_library_dir : Test → Kwargs
unfolding get_cassette_library_dir
with_library_dir t = elim t.get_vcr_kwargs.cassette_library_dir [
  | none ↦ record t.get_vcr_kwargs { cassette_library_dir = some (get_cassette_library_dir t) }
  | some folder ↦ t.get_vcr_kwargs
]

-- The one argument that `setUp` gives to `use_cassette`.
abbrev pub named : Str → Kwargs
named path = record no_kwargs { path = some path }

-- What `setUp` keeps for the clean-up: `cm`, with the cassette that it has opened.
pub record Opened (Q P : Type 0) : Type 0 where
  pub cassette : ℕ
  pub cm : Decorator
  pub serializer : Serializer

module _ {D J : Type 0} (urllib : Urllib) (shown : Shown) (loaders : Loaders D)
    (serializers : Serializers) (codec : Json J) (zlib : Zlib) where
  -- `_get_vcr`
  unfoldable pub get_vcr : Test → Result Vcr
  unfolding create with_library_dir
  get_vcr t = create urllib shown loaders serializers (with_library_dir t)

  -- What `cm` reads its arguments from.
  unfoldable pub config_of : Test → Result Config
  unfolding get_vcr use_cassette get_cassette_name
  config_of t = do
    vcr ← get_vcr t
    args_getter ← use_cassette urllib codec zlib false (named (get_cassette_name t)) vcr
    args_getter vcr

  module _ {W : Type 0} (persister : Serializer → Str → Persister Request Response W) where
    abbrev opened_with :
        Config
        → Context Request Response W
        → Result (Opened Request Response × Context Request Response W)
    unfolding arguments_of enter
    opened_with config s = do
      a ← arguments_of config
      (place, d, s1) ← enter (persister config.serializer) a s
      ok (record { cassette = place; cm = d; serializer = config.serializer }, s1)

    -- `setUp`; without a cassette there is nothing to clean up.
    unfoldable pub set_up :
        Test
        → Context Request Response W
        → Result (Option (Opened Request Response) × Context Request Response W)
    unfolding config_of arguments_of enter
    set_up t s =
        if t.vcr_enabled
        then (do config ← config_of t; (o, s1) ← opened_with config s; ok (some o, s1))
        else ok (none, s)

    -- cm.__exit__(None, None, None), whatever the test has come to
    unfoldable pub clean_up :
        Opened Request Response
        → Result Bool
        → Context Request Response W
        → Option Error × Decorator × Context Request Response W
    unfolding exit
    clean_up o again s = exit (persister o.serializer) again o.cm false s
