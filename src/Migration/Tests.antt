-- ===== src/Migration/Tests.antt =====
-- Concrete cases for vcrmartin/migration.py. The text "[]" is a file of the old format without items.
use vcrpy.Prelude.{
  Result, Str, [], ap, err, false, if◌then◌else◌, key_error, length, list_eq, ok, ok-injective,
  raised, refl, some, str, subst, suc, true, value_error, zero, ℕ, ◌==◌, ◌∷◌, ◌≡◌, List_eq, ℕ_eq,
}
use vcrpy.Text.{starts_with}
use vcrpy.Dict
use vcrpy.Dict.{Dict, get, insert}
use vcrpy.Filters.Responses.{decimal, digits_of}
use vcrpy.Samples.{small_urllib}
use vcrpy.Serialize.{Serializer, Files, readable, serialize}
use vcrpy.Migration.{
  Formats, Old, build_uri, try_migrate, items, mapping, migrate, migrate_data, migrate_items,
  migrate_json, preprocess_yaml, remove_all, requests_of_dicts, written,
}
use vcrpy.Migration.Rewriting.{ReadsVersion, migrated_once}

-- A file of the new format is as many "v" as its version.
abbrev load_small : Str → Result Old
load_small [] = ok (mapping (some 0) false)
load_small (c ∷ contents) =
    if c == b'[' then ok (items []) else ok (mapping (some (length (c ∷ contents))) false)

abbrev written_version : ℕ → Str
written_version zero = []
written_version (suc n) = b'v' ∷ written_version n

abbrev small_serializer : Serializer
small_serializer = record {
  serialize_data = λ version _. ok (written_version version);
  deserialize_data = λ _. err (raised value_error);
}

abbrev formats : Formats
formats = record {
  load_json = load_small;
  load_yaml = load_small;
  json_serializer = small_serializer;
  yaml_serializer = small_serializer;
  get_httpmessage = λ _. [];
}

length-written_version : (n : ℕ) → length (written_version n) ≡ n
length-written_version zero = refl
length-written_version (suc n) = ap suc (length-written_version n)

untagged : (tag : Str) (n : ℕ) → remove_all (b'!' ∷ tag) 0 (written_version n) ≡ written_version n
unfolding remove_all starts_with
untagged tag zero = refl
untagged tag (suc n) = ap (λ s. b'v' ∷ s) (untagged tag n)

preprocess_yaml-written_version : (n : ℕ) → preprocess_yaml (written_version n) ≡ written_version n
unfolding preprocess_yaml
preprocess_yaml-written_version n = simp (untagged _ n)

loads_version : (n : ℕ) → load_small (written_version n) ≡ ok (mapping (some n) false)
loads_version zero = refl
loads_version (suc n) = ap (λ v. ok (mapping (some (suc v)) false)) (length-written_version n)

reads : ReadsVersion small_urllib formats
reads = record {
  json_version = λ version dicts contents h. (
    false,
    subst (λ c. load_small c ≡ ok (mapping (some version) false)) (ok-injective h)
        (loads_version version),
  );
  yaml_version = λ version dicts contents h. (
    false,
    subst (λ c. load_small (preprocess_yaml c) ≡ ok (mapping (some version) false)) (ok-injective h)
        (rw (preprocess_yaml-written_version version) (loads_version version)),
  );
}

abbrev old_files : Files
old_files = (str "a.json", readable (str "[]")) ∷ (str "b", readable (str "x")) ∷ []

abbrev new_files : Files
new_files = (str "a.json", readable (str "v")) ∷ (str "b", readable (str "x")) ∷ []

rewritten : try_migrate small_urllib formats (str "a.json") old_files ≡ ok (true, new_files)
unfolding try_migrate migrate_json written migrate_data migrate serialize migrate_items
    requests_of_dicts list_eq get Dict.insert
rewritten = refl

migrated_once_example :
    (try_migrate small_urllib formats (str "a.json") new_files ≡ ok (false, new_files))
    × (Dict.get (str "b") new_files ≡ Dict.get (str "b") old_files)
migrated_once_example =
    migrated_once small_urllib formats (str "a.json") (str "b") old_files new_files reads
      (λ e. cc e) rewritten

uri_with_port : build_uri (str "https") (str "h") 80 (str "/a") ≡ ok (str "https://h:80/a")
unfolding build_uri decimal digits_of list_eq
uri_with_port = refl

uri_of_ftp : build_uri (str "ftp") (str "h") 80 (str "/a") ≡ err (raised key_error)
unfolding build_uri list_eq
uri_of_ftp = refl

tags_removed : preprocess_yaml (str "a !!python/object:vcr.request.Request b") ≡ str "a  b"
unfolding preprocess_yaml remove_all list_eq
tags_removed = refl
