-- ===== src/Config/Opened.antt =====
-- vcrmartin/config.py, `_use_cassette`, and vcrmartin/cassette.py, `__call__`: which configuration a
-- decorated function runs with, and which cassette it opens.
use vcrpy.Config.{
  Vcr, Kwargs, Config, pick, given_path, get_merged_config, get_serializer, get_matchers,
}
use vcrpy.Config.Paths.{Function, path_transformer_of, path_generator_of, compose}
use vcrpy.Text.{starts_with}
use vcrpy.Config.Folders.{default_path, default_path-IsHome, IsFolder, IsHome}
use vcrpy.Config.Using.{
  ArgsGetter, use_cassette, build_args_getter_for_decorator, with_path, arguments_of, opened_path,
}
use vcrpy.Context.{transformed_path}
use vcrpy.Request.{Urllib}
use vcrpy.Filters.PostData.{Json}
use vcrpy.Filters.Responses.{Zlib}
use vcrpy.Prelude.{
  Bool, Str, [], ap, false, if◌then◌else◌, none, ok, ok-injective, ok_of_bind, refl, str, sym, true,
  ◌++◌, ◌>>=◌, ◌∙◌, ◌∷◌, ◌≡◌, ℕ_eq,
}

-- The options of a configuration that say where its cassette is.
record Places (folder : Str) (vcr : Vcr) (kwargs : Kwargs) (config : Config) : Type 0 where
  transformer :
      config.path_transformer
      ≡ path_transformer_of folder (pick kwargs.path_transformer vcr.path_transformer)
  generator :
      config.func_path_generator
      ≡ path_generator_of folder (pick kwargs.func_path_generator vcr.func_path_generator)
  path : config.path ≡ given_path kwargs.path

opened_default :
    (folder : Str) (function : Function) (config : Config)
    → config.path ≡ none
    → config.path_transformer ≡ path_transformer_of folder none
    → config.func_path_generator ≡ path_generator_of folder none
    → (do
      named ← with_path function config config.path
      a ← arguments_of named
      transformed_path a.path_transformer a.path)
      ≡ ok (default_path folder function)
unfolding arguments_of path_transformer_of path_generator_of compose default_path
opened_default [] function config no_path transformer generator =
    rw (no_path, generator, transformer) refl
opened_default (c ∷ folder) function config no_path transformer generator =
    rw (no_path, generator, transformer) refl

module _ {J : Type 0} (urllib : Urllib) (codec : Json J) (zlib : Zlib) where
  merged-Places :
      (vcr : Vcr) (kwargs : Kwargs) (config : Config)
      → get_merged_config urllib codec zlib vcr kwargs ≡ ok config
      → Places (pick kwargs.cassette_library_dir vcr.cassette_library_dir) vcr kwargs config
  unfolding get_merged_config
  merged-Places vcr kwargs config merged =
      let (serializer, _, merged1) =
        ok_of_bind (get_serializer vcr.serializers (pick kwargs.serializer vcr.serializer)) _
          merged in
      let (matchers, _, merged2) =
        ok_of_bind
          (get_matchers vcr.matchers
            (pick kwargs.match_on vcr.match_on ++ pick kwargs.additional_matchers []))
          _ merged1 in
      let same = ok-injective merged2 in
      record {
        transformer = sym (ap (λ (c : Config). c.path_transformer) same);
        generator = sym (ap (λ (c : Config). c.func_path_generator) same);
        path = sym (ap (λ (c : Config). c.path) same);
      }

  -- Which state of the `VCR` a call reads its options from.
  abbrev pub read_from : Bool → Vcr → Vcr → Vcr
  read_from with_current_defaults vcr later = if with_current_defaults then vcr else later

  reads_options :
      (with_current_defaults : Bool) (kwargs : Kwargs) (vcr later : Vcr) (args_getter : ArgsGetter)
      → use_cassette urllib codec zlib with_current_defaults kwargs vcr ≡ ok args_getter
      → args_getter later
        ≡ get_merged_config urllib codec zlib (read_from with_current_defaults vcr later) kwargs
  unfolding use_cassette
  reads_options true kwargs vcr later args_getter used =
      let (config, merged, used1) =
        ok_of_bind (get_merged_config urllib codec zlib vcr kwargs) _ used in
      sym (ap (λ (g : ArgsGetter). g later) (ok-injective used1)) ∙ sym merged
  reads_options false kwargs vcr later args_getter used =
      sym (ap (λ (g : ArgsGetter). g later) (ok-injective used))

  decorated_opens :
      (with_current_defaults : Bool) (kwargs : Kwargs) (vcr later : Vcr) (args_getter : ArgsGetter)
      (function : Function) (config : Config)
      → use_cassette urllib codec zlib with_current_defaults kwargs vcr ≡ ok args_getter
      → get_merged_config urllib codec zlib (read_from with_current_defaults vcr later) kwargs
        ≡ ok config
      → given_path kwargs.path ≡ none
      → pick kwargs.path_transformer (read_from with_current_defaults vcr later).path_transformer
        ≡ none
      → pick kwargs.func_path_generator
          (read_from with_current_defaults vcr later).func_path_generator
        ≡ none
      → opened_path (build_args_getter_for_decorator function args_getter) later
        ≡ ok (
            default_path
              (pick kwargs.cassette_library_dir
                (read_from with_current_defaults vcr later).cassette_library_dir)
              function)
  unfolding opened_path build_args_getter_for_decorator
  decorated_opens with_current_defaults kwargs vcr later args_getter function config used merged
        no_path no_transformer no_generator =
      let current = read_from with_current_defaults vcr later in
      let folder = pick kwargs.cassette_library_dir current.cassette_library_dir in
      let places = merged-Places current kwargs config merged in
      rw (reads_options with_current_defaults kwargs vcr later args_getter used, merged)
        (opened_default folder function config (places.path ∙ no_path)
          (places.transformer ∙ ap (path_transformer_of folder) no_transformer)
          (places.generator ∙ ap (path_generator_of folder) no_generator))

  -- A function decorated by `use_cassette`, whose name begins with no slash, and whose configuration
  -- can be made from options that give no path, no generator and no transformer of paths, opens the
  -- cassette `place/name` for its name: `place` is the library folder, if there is one and the name
  -- does not begin with the text of it, or, without a library folder, the folder of the file
  -- `place/base` of the function. It is neither the root nor the working directory. The options are
  -- those that the `VCR` has when the function is called, so that changes after the decoration count;
  -- with `with_current_defaults` they are those of the decoration.
  pub decorated_opens_default :
      (with_current_defaults : Bool) (kwargs : Kwargs) (vcr later : Vcr) (args_getter : ArgsGetter)
      (function : Function) (config : Config) (place : Str)
      → use_cassette urllib codec zlib with_current_defaults kwargs vcr ≡ ok args_getter
      → get_merged_config urllib codec zlib (read_from with_current_defaults vcr later) kwargs
        ≡ ok config
      → given_path kwargs.path ≡ none
      → pick kwargs.path_transformer (read_from with_current_defaults vcr later).path_transformer
        ≡ none
      → pick kwargs.func_path_generator
          (read_from with_current_defaults vcr later).func_path_generator
        ≡ none
      → IsFolder place
      → IsHome
          (pick kwargs.cassette_library_dir
            (read_from with_current_defaults vcr later).cassette_library_dir)
          place
          function
      → starts_with (str "/") function.name ≡ false
      → opened_path (build_args_getter_for_decorator function args_getter) later
        ≡ ok (place ++ (str "/" ++ function.name))
  decorated_opens_default with_current_defaults kwargs vcr later args_getter function config place
        used merged no_path no_transformer no_generator folder home relative =
      decorated_opens with_current_defaults kwargs vcr later args_getter function config used merged
        no_path no_transformer no_generator
      ∙ ap ok (default_path-IsHome _ place function folder home relative)
