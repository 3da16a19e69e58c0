-- ===== src/Migration.antt =====
-- vcrmartin/migration.py: cassette files of the old format are rewritten. The loaders of JSON and YAML,
-- and `http.client.parse_headers`, are parameters. A body that is a text stands here as its UTF-8,
-- which is what `serialize` writes a text of. The temporary file and the lines on stderr are left out.
pub mod Rewriting
mod Tests
use vcrpy.Prelude.{
  Bool, Bytes, List, Option, Result, Str, [], err, false, file_not_found, firsts, if◌then◌else◌,
  index_error, key_error, length, map, none, ok, raised, seconds, some, str, suc, true, type_error,
  unicode_error, zero, ℕ, ◌++◌, ◌-◌, ◌==◌, ◌>>=◌, ◌||◌, ◌∷◌, List_eq, ℕ_eq,
}
use vcrpy.Text.{starts_with}
use vcrpy.Text.Utf8.{encode}
use vcrpy.Dict
use vcrpy.Dict.{Dict, get, insert}
use vcrpy.Request.{Request, Urllib, Body, HeaderText, scheme, text}
use vcrpy.Filters.Responses.{Response, decimal}
use vcrpy.Config.Paths.{ends_with}
use vcrpy.Clients.Grouping.{group_from}
use vcrpy.Serialize.{
  Serializer, File, Files, serialize, from_dict, RequestDict, interactions, broken, readable,
}

-- A request of the old format; the keys of `PARTS` may be missing. In YAML the headers are a list, of
-- which the first item is a list of pairs.
pub record OldRequest : Type 0 where
  pub method : Str
  pub protocol : Option Str
  pub host : Option Str
  pub port : Option ℕ
  pub path : Option Str
  pub body : Body
  pub headers : Dict Str HeaderText
  pub header_sets : List (List (Str × HeaderText))

pub record OldResponse : Type 0 where
  pub code : ℕ
  pub message : Str
  pub headers : List Str
  pub string : Bytes

-- What a loader returns: the items of the old format, or a dictionary, with the
-- value of "version" and whether it is empty.
pub data Old : Type 0 where
  items : List (OldRequest × OldResponse) → Old
  mapping : Option ℕ → Bool → Old

pub record Formats : Type 0 where
  pub load_json : Str → Result Old
  pub load_yaml : Str → Result Old
  pub json_serializer : Serializer
  pub yaml_serializer : Serializer
  pub get_httpmessage : Bytes → List (Str × Str)

-- cassette.replace(part, ""), where `n` characters of a found part are still to be left out.
unfoldable pub remove_all : Str → ℕ → Str → Str
unfolding starts_with
remove_all part n [] = []
remove_all part (suc n) (c ∷ s) = remove_all part n s
remove_all part zero (c ∷ s) = elim (starts_with part (c ∷ s)) [
  | true ↦ remove_all part (length part - 1) s
  | false ↦ c ∷ remove_all part zero s
]

abbrev strings_to_nuke : List Str
strings_to_nuke =
    str "!!python/object:vcr.request.Request"
    ∷ str "!!python/object/apply:__builtin__.frozenset"
    ∷ str "!!python/object/apply:builtins.frozenset"
    ∷ []

abbrev remove_each : List Str → Str → Str
remove_each [] cassette = cassette
remove_each (s ∷ rest) cassette = remove_each rest (remove_all s 0 cassette)

unfoldable pub preprocess_yaml : Str → Str
unfolding remove_all
preprocess_yaml cassette = remove_each strings_to_nuke cassette

abbrev default_port : Str → Result ℕ
default_port scheme =
    if scheme == str "https"
    then ok 443
    else if scheme == str "http"
    then ok 80
    else err (raised key_error)

unfoldable pub build_uri : Str → Str → ℕ → Str → Result Str
unfolding decimal
build_uri scheme host port path = do
  default ← default_port scheme
  let port_part = if port == default then [] else str ":" ++ decimal port in
      ok (scheme ++ str "://" ++ host ++ port_part ++ path)

-- `_already_migrated`: without "version" it is false; a list has no `get`.
abbrev pub already_migrated : Old → Bool
already_migrated (items old) = false
already_migrated (mapping none empty) = false
already_migrated (mapping (some version) empty) = version == 1

-- dict(pairs)
abbrev dict_of_pairs : List (Str × HeaderText) → Dict Str HeaderText → Dict Str HeaderText
dict_of_pairs [] d = d
dict_of_pairs ((key, value) ∷ pairs) d = dict_of_pairs pairs (Dict.insert key value d)

-- req.pop(k)
abbrev pop_part : {A : Type 0} → Option A → Result A
pop_part none = err (raised key_error)
pop_part (some a) = ok a

unfoldable pub migrate_request : OldRequest → Result RequestDict
unfolding build_uri
migrate_request req = do
  protocol ← pop_part req.protocol
  host ← pop_part req.host
  port ← pop_part req.port
  path ← pop_part req.path
  uri ← build_uri protocol host port path
  ok (record {
    method = req.method;
    uri = uri;
    body = req.body;
    headers = map (λ (h : Str × HeaderText). (h.0, h.1 ∷ [])) req.headers;
  })

-- b"".join(h.encode("utf-8") for h in res["headers"])
unfoldable pub join_encoded : List Str → Result Bytes
unfolding encode
join_encoded [] = ok []
join_encoded (h ∷ headers) = do
  bytes ← encode h
  others ← join_encoded headers
  ok (bytes ++ others)

-- data[i]["request"]["headers"] = _list_of_tuples_to_dict(...)
abbrev dict_headers : OldRequest → Result OldRequest
dict_headers req = elim req.header_sets [
  | [] ↦ err (raised index_error)
  | pairs ∷ _ ↦ ok (record req { headers = dict_of_pairs pairs [] })
]

unfoldable pub with_dict_headers :
    List (OldRequest × OldResponse) → Result (List (OldRequest × OldResponse))
with_dict_headers [] = ok []
with_dict_headers ((req, res) ∷ rest) = do
  req' ← dict_headers req
  others ← with_dict_headers rest
  ok ((req', res) ∷ others)

-- open(file_path).read()
abbrev pub read_file : Option File → Result Str
read_file none = err (raised file_not_found)
read_file (some broken) = err (raised unicode_error)
read_file (some (readable contents)) = ok contents

-- `migrate`: whether the file was rewritten, and the files after that.
abbrev pub rewrite : Str → Files → Option Str → Bool × Files
rewrite file_path files none = (false, files)
rewrite file_path files (some contents) = (true, Dict.insert file_path (readable contents) files)

unfoldable pub migrate : Str → (Str → Result (Option Str)) → Files → Result (Bool × Files)
migrate file_path migration_fn files = do
  contents ← read_file (Dict.get file_path files)
  result ← migration_fn contents
  ok (rewrite file_path files result)

module _ (urllib : Urllib) (formats : Formats) where
  unfoldable pub migrate_response : OldResponse → Result Response
  unfolding join_encoded group_from
  migrate_response res = do
    lines ← join_encoded res.headers
    ok (record {
      code = res.code;
      message = res.message;
      headers = group_from (formats.get_httpmessage lines) [];
      string = res.string;
    })

  -- The loop of `_migrate`.
  unfoldable pub migrate_items :
      List (OldRequest × OldResponse) → Result (List (RequestDict × Response))
  unfolding migrate_request migrate_response
  migrate_items [] = ok []
  migrate_items ((req, res) ∷ rest) = do
    request ← migrate_request req
    response ← migrate_response res
    others ← migrate_items rest
    ok ((request, response) ∷ others)

  unfoldable pub requests_of_dicts : List RequestDict → Result (List Request)
  unfolding from_dict
  requests_of_dicts [] = ok []
  requests_of_dicts (d ∷ dicts) = do
    request ← from_dict urllib d
    others ← requests_of_dicts dicts
    ok (request ∷ others)

  -- `_migrate`
  unfoldable pub migrate_data :
      List (OldRequest × OldResponse) → Result (List Request × List Response)
  unfolding migrate_items requests_of_dicts
  migrate_data old = do
    migrated ← migrate_items old
    requests ← requests_of_dicts (firsts migrated)
    ok (requests, seconds migrated)

  -- serialize(interactions, serializer), which is written to the file.
  unfoldable pub written : Serializer → List (OldRequest × OldResponse) → Result (Option Str)
  unfolding migrate_data serialize
  written serializer old = do
    migrated ← migrate_data old
    contents ← serialize urllib serializer migrated
    ok (some contents)

  -- A dictionary that is not of version 1 is iterated, so that an item is a text.
  abbrev pub migrate_json_data : Old → Result (Option Str)
  migrate_json_data (items old) = written formats.json_serializer old
  migrate_json_data (mapping version true) =
      if already_migrated (mapping version true)
      then ok none
      else written formats.json_serializer []
  migrate_json_data (mapping version false) =
      if already_migrated (mapping version false) then ok none else err (raised type_error)

  -- `migrate_json`: `none` is `False`, and a text is what it writes.
  unfoldable pub migrate_json : Str → Result (Option Str)
  unfolding written
  migrate_json contents = do old ← formats.load_json contents; migrate_json_data old

  -- A dictionary that is not of version 1 has no key 0.
  abbrev pub migrate_yml_data : Old → Result (Option Str)
  migrate_yml_data (items old) = do
    converted ← with_dict_headers old
    written formats.yaml_serializer converted
  migrate_yml_data (mapping version true) =
      if already_migrated (mapping version true)
      then ok none
      else written formats.yaml_serializer []
  migrate_yml_data (mapping version false) =
      if already_migrated (mapping version false) then ok none else err (raised key_error)

  unfoldable pub migrate_yml : Str → Result (Option Str)
  unfolding written preprocess_yaml with_dict_headers
  migrate_yml contents = do old ← formats.load_yaml (preprocess_yaml contents); migrate_yml_data old

  unfoldable pub try_migrate : Str → Files → Result (Bool × Files)
  unfolding migrate migrate_json migrate_yml ends_with
  try_migrate path files =
      if ends_with (str ".json") path
      then migrate path migrate_json files
      else if ends_with (str ".yaml") path || ends_with (str ".yml") path
      then migrate path migrate_yml files
      else ok (false, files)

  -- The loop of `main`, with the statuses that it writes.
  unfoldable pub migrate_all : List Str → Files → Result (List (Str × Bool) × Files)
  unfolding try_migrate
  migrate_all [] files = ok ([], files)
  migrate_all (file_path ∷ paths) files = do
    (migrated, files1) ← try_migrate file_path files
    (statuses, files2) ← migrate_all paths files1
    ok ((file_path, migrated) ∷ statuses, files2)
