-- ===== src/Filters/PostData.antt =====
-- vcrmartin/filters.py, `replace_post_data_parameters` and `remove_post_data_parameters`. The parser
-- and the printer of JSON are parameters, over a type `J` of the values of an object's fields.
pub mod Fields
use vcrpy.Prelude.{
  Bool, Bytes, List, Option, Result, Str, [], attribute_error, err, false, if◌then◌else◌, map,
  nat_eq, none, ok, raised, some, str, type_error, ℕ, ◌&&◌, ◌++◌, ◌==◌, ◌>>=◌, ◌∷◌, List_eq, ℕ_eq,
}
use vcrpy.Dict
use vcrpy.Dict.{Dict, get}
use vcrpy.Text.Utf8.{encode, decode}
use vcrpy.CaseInsensitiveDict
use vcrpy.Request.{
  Request, Body, HeaderText, text, binary, get_body, set_body, bytearray, file, form,
}
use vcrpy.Matchers.Bodies.{body_truth}
use vcrpy.Filters.{Replacement, replaced, removals, dict_of, replace_fields, call, remove, value}

pub record Json (J : Type 0) : Type 0 where
  -- What a text or bytes hold, where that is an object.
  pub loads : Bytes → Result (Dict Str J)
  pub dumps : Dict Str J → Str
  -- A replacement, which is a text or a function on texts, used on a field of an object.
  pub of_replacement : Replacement Str → Replacement J

-- body.split(separator), for a separator of one byte
unfoldable pub split : ℕ → Bytes → List Bytes
split separator [] = [] ∷ []
split separator (b ∷ bytes) = elim (split separator bytes) [
  | [] ↦ []
  | part ∷ parts ↦ if nat_eq b separator then [] ∷ part ∷ parts else (b ∷ part) ∷ parts
]

-- separator.join(parts)
unfoldable pub join : ℕ → List Bytes → Bytes
join separator [] = []
join separator (part ∷ []) = part
join separator (part ∷ next ∷ parts) = part ++ separator ∷ join separator (next ∷ parts)

-- p.partition(separator): without the separator, the second and the third are empty.
unfoldable pub partition : ℕ → Bytes → Bytes × (Bytes × Bytes)
partition separator [] = ([], ([], []))
partition separator (b ∷ bytes) =
    if nat_eq b separator
    then ([], (b ∷ [], bytes))
    else ((b ∷ (partition separator bytes).0), (partition separator bytes).1)

-- rv.encode("utf-8"), unless it is `None`.
abbrev pub encoded_value : Option Str → Result (Option Bytes)
encoded_value none = ok none
encoded_value (some s) = do bytes ← encode s; ok (some bytes)

-- The old value is decoded for a function alone.
abbrev pub replaced_value : Request → Option (Replacement Str) → Str → Bytes → Result (Option Bytes)
replaced_value request none key old = ok (some old)
replaced_value request (some Replacement.remove) key old = ok none
replaced_value request (some (value s)) key old = encoded_value (some s)
replaced_value request (some (call f)) key old = do
  old_text ← decode old
  new ← f key old_text request
  encoded_value new

abbrev pub put_part : Bytes × (Bytes × Bytes) → Option Bytes → List Bytes → List Bytes
put_part p none rest = rest
put_part p (some v) rest = (p.0 ++ (p.1.0 ++ v)) ∷ rest

-- The loop over the parts and the joining of each. No `sep` is `None`, so that `if sep is None` is
-- never taken.
unfoldable pub replace_parts :
    Request → Dict Str (Replacement Str) → List Bytes → Result (List Bytes)
unfolding replaced partition
replace_parts request replacements [] = ok []
replace_parts request replacements (part ∷ parts) = do
  key ← decode (partition b'=' part).0
  new ← replaced_value request (Dict.get key replacements) key (partition b'=' part).1.1
  others ← replace_parts request replacements parts
  ok (put_part (partition b'=' part) new others)

unfoldable pub replace_bytes : Request → Dict Str (Replacement Str) → Bytes → Result Request
unfolding replace_parts split join set_body
replace_bytes request replacements bytes = do
  parts ← replace_parts request replacements (split b'&' bytes)
  set_body (Body.binary (join b'&' parts)) request

-- What is no text, bytes or `bytearray` has no `split`.
unfoldable pub replace_body : Request → Dict Str (Replacement Str) → Body → Result Request
unfolding replace_bytes
replace_body request replacements (Body.binary bytes) = replace_bytes request replacements bytes
replace_body request replacements (bytearray bytes) = replace_bytes request replacements bytes
replace_body request replacements (Body.text s) = do
  bytes ← encode s
  replace_bytes request replacements bytes
replace_body request replacements _ = err (raised attribute_error)

abbrev pub is_json : Option HeaderText → Bool
is_json (some (HeaderText.text s)) = s == str "application/json"
is_json _ = false

module _ {J : Type 0} (codec : Json J) where
  unfoldable pub replace_object : Request → Dict Str (Replacement Str) → Bytes → Result Request
  unfolding replace_fields set_body
  replace_object request replacements bytes = do
    fields ← codec.loads bytes
    new ←
        replace_fields request
          (map (λ (p : Str × Replacement Str). (p.0, codec.of_replacement p.1)) replacements) fields
    body ← encode (codec.dumps new)
    set_body (Body.binary body) request

  unfoldable pub replace_json : Request → Dict Str (Replacement Str) → Body → Result Request
  unfolding replace_object
  replace_json request replacements (Body.binary bytes) = replace_object request replacements bytes
  replace_json request replacements (bytearray bytes) = replace_object request replacements bytes
  replace_json request replacements (Body.text s) = replace_object request replacements s
  replace_json request replacements _ = err (raised type_error)

  -- By the type of the body, for the method POST; a file is left alone.
  unfoldable pub replace_in : Request → Dict Str (Replacement Str) → Body → Result Request
  unfolding replace_fields set_body replace_json replace_body
  replace_in request replacements (file contents) = ok request
  replace_in request replacements (form d) = do
    new_body ← replace_fields request replacements d
    set_body (form new_body) request
  replace_in request replacements body =
      if is_json (CaseInsensitiveDict.get (str "Content-Type") request.headers)
      then replace_json request replacements body
      else replace_body request replacements body

  unfoldable pub replace_post_data_parameters :
      Request → List (Str × Replacement Str) → Result Request
  unfolding get_body body_truth dict_of replace_in
  replace_post_data_parameters request replacements = do
    body ← get_body request
    if body_truth body && request.method == str "POST"
        then replace_in request (dict_of replacements []) body
        else ok request

  unfoldable pub remove_post_data_parameters : Request → List Str → Result Request
  unfolding replace_post_data_parameters
  remove_post_data_parameters request names = replace_post_data_parameters request (removals names)
