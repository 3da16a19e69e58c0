-- ===== src/Config/Using.antt =====
-- vcrmartin/config.py, `use_cassette`, and what `CassetteContextDecorator` of vcrmartin/cassette.py
-- makes of it when a function is decorated. The decorated function does not change the `VCR`.
use vcrpy.Config.{Vcr, Kwargs, Config, get_merged_config}
use vcrpy.Config.Paths.{Function, PathGenerator}
use vcrpy.Context.{Arguments, Context, handle_function, transformed_path}
use vcrpy.Request.{Request, Urllib, path}
use vcrpy.Filters.PostData.{Json}
use vcrpy.Filters.Responses.{Response, Zlib}
use vcrpy.Serialize.{Serializer}
use vcrpy.Cassette.Storage.{Persister}
use vcrpy.Prelude.{
  Bool, Option, Result, Str, err, false, key_error, none, ok, raised, some, true, type_error, ℕ,
  ◌>>=◌, ℕ_eq,
}

-- `_args_getter`, over the state that the `VCR` has when it is called.
abbrev pub ArgsGetter : Type 0
ArgsGetter = Vcr → Result Config

-- kwargs.get("func_path_generator") or self.get_function_name
abbrev pub generated_path : Option PathGenerator → Function → Result Str
generated_path none function = ok function.name
generated_path (some generator) function = generator function

abbrev pub with_path : Function → Config → Option Str → Result Config
with_path function kwargs (some path) = ok kwargs
with_path function kwargs none = do
  path ← generated_path kwargs.func_path_generator function
  ok (record kwargs { path = some path })

-- `_build_args_getter_for_decorator`
unfoldable pub build_args_getter_for_decorator : Function → ArgsGetter → ArgsGetter
build_args_getter_for_decorator function args_getter vcr = do
  kwargs ← args_getter vcr
  with_path function kwargs kwargs.path

-- The missing "path" of `cassette_kwargs`: with a transformer it is looked up, without one it is an
-- argument of `Cassette` that is not there.
abbrev pub path_or : Config → Option Str → Result Str
path_or config (some path) = ok path
path_or config none = elim config.path_transformer [
  | none ↦ err (raised type_error)
  | some f ↦ err (raised key_error)
]

-- The two parts that `partition_dict` makes of the arguments.
unfoldable pub arguments_of : Config → Result (Arguments Request Response)
arguments_of config = do
  path ← path_or config config.path
  ok (record {
    settings = config.settings;
    path = path;
    path_transformer = config.path_transformer;
  })

-- The path of the cassette that a call opens.
unfoldable pub opened_path : ArgsGetter → Vcr → Result Str
unfolding arguments_of
opened_path args_getter vcr = do
  config ← args_getter vcr
  a ← arguments_of config
  transformed_path a.path_transformer a.path

-- `handle_function` of `_execute_function`: the cassette is an argument where it is injected.
abbrev pub injected : {A : Type 0} → Bool → (Option ℕ → A) → ℕ → A
injected true function cassette = function (some cassette)
injected false function cassette = function none

module _ {W : Type 0} (persister : Serializer → Str → Persister Request Response W) where
  abbrev pub run_configured :
      {A : Type 0}
      → (Option ℕ → Context Request Response W → Result A × Context Request Response W)
      → Config
      → Context Request Response W
      → Result (Arguments Request Response)
      → Result A × Context Request Response W
  unfolding handle_function
  run_configured function config s (err e) = (err e, s)
  run_configured function config s (ok a) =
      handle_function (persister config.serializer) a (ok config.record_on_exception)
        (injected config.settings.inject function) s

  abbrev pub run_with :
      {A : Type 0}
      → (Option ℕ → Context Request Response W → Result A × Context Request Response W)
      → Context Request Response W
      → Result Config
      → Result A × Context Request Response W
  unfolding arguments_of
  run_with function s (err e) = (err e, s)
  run_with function s (ok config) = run_configured function config s (arguments_of config)

  -- `__call__` on a function that is called `name`.
  unfoldable pub call_decorated :
      {A : Type 0}
      → ArgsGetter
      → Function
      → (Option ℕ → Context Request Response W → Result A × Context Request Response W)
      → Vcr
      → Context Request Response W
      → Result A × Context Request Response W
  unfolding build_args_getter_for_decorator
  call_decorated args_getter name function vcr s =
      run_with function s (build_args_getter_for_decorator name args_getter vcr)

module _ {J : Type 0} (urllib : Urllib) (codec : Json J) (zlib : Zlib) where
  -- `_use_cassette`; otherwise the configuration is merged anew whenever a cassette is opened.
  unfoldable pub use_cassette : Bool → Kwargs → Vcr → Result ArgsGetter
  unfolding get_merged_config
  use_cassette true kwargs vcr = do
    config ← get_merged_config urllib codec zlib vcr kwargs
    ok (λ later. ok config)
  use_cassette false kwargs vcr = ok (λ later. get_merged_config urllib codec zlib later kwargs)
