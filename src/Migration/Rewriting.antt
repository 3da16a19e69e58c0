-- ===== src/Migration/Rewriting.antt =====
-- vcrmartin/migration.py: which files are rewritten, and that a migrated file is left alone.
use vcrpy.Prelude.{
  Bool, Bool-cases, List, Option, Result, Str, [], ap, false, inl, inr, none, ok, ok-injective,
  ok_of_bind, refl, some, some-injective, str, subst, sym, true, zip, ℕ, ◌||◌, ◌∙◌, ◌≡◌, ◌≢◌,
  List_eq, ℕ_eq,
}
use vcrpy.Dict
use vcrpy.Dict.{Dict, get, get-insert_other, get-insert_same, insert}
use vcrpy.Request.{Urllib}
use vcrpy.Config.Paths.{ends_with}
use vcrpy.Serialize.{
  Serializer, Files, RequestDict, ResponseDict, dicts_of, serialize, readable,
  cassette_format_version,
}
use vcrpy.Migration.{
  Formats, Old, migrate, try_migrate, OldRequest, OldResponse, mapping, migrate_data,
  migrate_json_data, preprocess_yaml, written, already_migrated, items, migrate_json, migrate_yml,
  migrate_yml_data, read_file, rewrite, with_dict_headers,
}

module _ (urllib : Urllib) (formats : Formats) where
  -- The loader of each format reads the "version" that the serializer was given; in YAML, after the
  -- tags of the old format were taken out.
  pub record ReadsVersion : Type 0 where
    pub json_version :
        (version : ℕ) (dicts : List (RequestDict × ResponseDict)) (contents : Str)
        → formats.json_serializer.serialize_data version dicts ≡ ok contents
        → (empty : Bool) × (formats.load_json contents ≡ ok (mapping (some version) empty))
    pub yaml_version :
        (version : ℕ) (dicts : List (RequestDict × ResponseDict)) (contents : Str)
        → formats.yaml_serializer.serialize_data version dicts ≡ ok contents
        → (empty : Bool) × (formats.load_yaml (preprocess_yaml contents)
            ≡ ok (mapping (some version) empty))

  written_by :
      (serializer : Serializer) (old : List (OldRequest × OldResponse)) (contents : Str)
      → written urllib formats serializer old ≡ ok (some contents)
      → (dicts : List (RequestDict × ResponseDict)) × (serializer.serialize_data
            cassette_format_version dicts
          ≡ ok contents)
  unfolding written serialize
  written_by serializer old contents h =
      let (migrated, _, h1) = ok_of_bind (migrate_data urllib formats old) _ h in
      let (c, e, h2) = ok_of_bind (serialize urllib serializer migrated) _ h1 in
      let (dicts, _, h3) = ok_of_bind (dicts_of (zip migrated.0 migrated.1)) _ e in
      (dicts, h3 ∙ ap ok (some-injective _ _ (ok-injective h2)))

  json_written :
      (old : Old) (contents : Str)
      → migrate_json_data urllib formats old ≡ ok (some contents)
      → (dicts : List (RequestDict × ResponseDict)) × (formats.json_serializer.serialize_data
            cassette_format_version dicts
          ≡ ok contents)
  json_written (items old) contents h = written_by formats.json_serializer old contents h
  json_written (mapping version true) contents h =
      elim (Bool-cases (already_migrated (mapping version true))) [
        | inl current ↦ (let stopped = rw current at h in cc (ok-injective stopped))
        | inr older ↦ written_by formats.json_serializer [] contents (rw older at h)
      ]
  json_written (mapping version false) contents h =
      elim (Bool-cases (already_migrated (mapping version false))) [
        | inl current ↦ (let stopped = rw current at h in cc (ok-injective stopped))
        | inr older ↦ (let stopped = rw older at h in cc stopped)
      ]

  yaml_written :
      (old : Old) (contents : Str)
      → migrate_yml_data urllib formats old ≡ ok (some contents)
      → (dicts : List (RequestDict × ResponseDict)) × (formats.yaml_serializer.serialize_data
            cassette_format_version dicts
          ≡ ok contents)
  yaml_written (items old) contents h =
      let (converted, _, h1) = ok_of_bind (with_dict_headers old) _ h in
      written_by formats.yaml_serializer converted contents h1
  yaml_written (mapping version true) contents h =
      elim (Bool-cases (already_migrated (mapping version true))) [
        | inl current ↦ (let stopped = rw current at h in cc (ok-injective stopped))
        | inr older ↦ written_by formats.yaml_serializer [] contents (rw older at h)
      ]
  yaml_written (mapping version false) contents h =
      elim (Bool-cases (already_migrated (mapping version false))) [
        | inl current ↦ (let stopped = rw current at h in cc (ok-injective stopped))
        | inr older ↦ (let stopped = rw older at h in cc stopped)
      ]

  current_json :
      (empty : Bool) → migrate_json_data urllib formats (mapping (some 1) empty) ≡ ok none
  current_json true = refl
  current_json false = refl

  current_yml : (empty : Bool) → migrate_yml_data urllib formats (mapping (some 1) empty) ≡ ok none
  current_yml true = refl
  current_yml false = refl

  -- A function that leaves what it wrote alone.
  abbrev Settles : (Str → Result (Option Str)) → Type 0
  Settles migration_fn =
      (before after : Str) → migration_fn before ≡ ok (some after) → migration_fn after ≡ ok none

  migrate_json-Settles : ReadsVersion → Settles (migrate_json urllib formats)
  unfolding migrate_json
  migrate_json-Settles reads before after h =
      let (old, _, h1) = ok_of_bind (formats.load_json before) _ h in
      let (dicts, e) = json_written old after h1 in
      let (empty, version) = reads.json_version cassette_format_version dicts after e in
      rw version (current_json empty)

  migrate_yml-Settles : ReadsVersion → Settles (migrate_yml urllib formats)
  unfolding migrate_yml
  migrate_yml-Settles reads before after h =
      let (old, _, h1) = ok_of_bind (formats.load_yaml (preprocess_yaml before)) _ h in
      let (dicts, e) = yaml_written old after h1 in
      let (empty, version) = reads.yaml_version cassette_format_version dicts after e in
      rw version (current_yml empty)

  -- The file is done, and the others are as they were.
  abbrev Done : Str → (Str → Result (Option Str)) → Files → Files → Type 0
  Done file_path migration_fn files files' =
      (migrate file_path migration_fn files' ≡ ok (false, files'))
      × ((other : Str) → other ≢ file_path → Dict.get other files' ≡ Dict.get other files)

  migrate-Done :
      (file_path : Str) (migration_fn : Str → Result (Option Str)) (files files' : Files)
      → Settles migration_fn
      → migrate file_path migration_fn files ≡ ok (true, files')
      → Done file_path migration_fn files files'
  unfolding migrate
  migrate-Done file_path migration_fn files files' settles h =
      let (contents, _, h1) = ok_of_bind (read_file (Dict.get file_path files)) _ h in
      let (result, e, h2) = ok_of_bind (migration_fn contents) _ h1 in
      rewritten result e (ok-injective h2)
    where
      rewritten :
          {contents : Str} (result : Option Str)
          → migration_fn contents ≡ ok result
          → rewrite file_path files result ≡ (true, files')
          → Done file_path migration_fn files files'
      rewritten none e same = cc same
      rewritten {contents} (some after) e same =
          let there : Dict.insert file_path (readable after) files ≡ files' =
            ap (λ (x : Bool × Files). x.1) same in
          subst (Done file_path migration_fn files) there (
            rw (get-insert_same file_path (readable after) files, settles contents after e) refl,
            λ other differs.
                get-insert_other file_path other (readable after) files (λ e'. differs (sym e')),
          )

  -- A file that `try_migrate` has rewritten is left as it is when it is run again, and no other file
  -- is changed: `serialize` gives the serializer the version that `_already_migrated` looks for. It
  -- assumes that the loaders read back whatever version the serializers were given.
  pub migrated_once :
      (file_path other : Str) (files files' : Files)
      → ReadsVersion
      → other ≢ file_path
      → try_migrate urllib formats file_path files ≡ ok (true, files')
      → (try_migrate urllib formats file_path files' ≡ ok (false, files'))
        × (Dict.get other files' ≡ Dict.get other files)
  unfolding try_migrate
  migrated_once file_path other files files' reads differs h =
      elim (Bool-cases (ends_with (str ".json") file_path)) [
        | inl json_file ↦
            let (again, others) =
              migrate-Done file_path (migrate_json urllib formats) files files'
                (migrate_json-Settles reads) (rw json_file at h) in
            (rw json_file again, others other differs)
        | inr no_json ↦
            elim (Bool-cases
              (ends_with (str ".yaml") file_path || ends_with (str ".yml") file_path)) [
                | inl yaml_file ↦
                    let (again, others) =
                      migrate-Done file_path (migrate_yml urllib formats) files files'
                        (migrate_yml-Settles reads) (rw (no_json, yaml_file) at h) in
                    (rw (no_json, yaml_file) again, others other differs)
                | inr another ↦
                    (let stopped = rw (no_json, another) at h in cc (ok-injective stopped))
              ]
      ]
