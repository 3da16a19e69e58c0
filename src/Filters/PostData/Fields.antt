-- ===== src/Filters/PostData/Fields.antt =====
-- What `replace_post_data_parameters` of vcrmartin/filters.py does to a form in a body of bytes.
use vcrpy.Prelude.{
  All, Bool, Bool-cases, Bytes, List, Result, Str, [], ap, arith, err, false, inl, inr, keep,
  keep-false, keep-true, nat_eq, nat_eq_iff, none, not, ok, refl, str, sym, true, ℕ, ◌++◌, ◌==◌,
  ◌∙◌, ◌∷◌, ◌≡◌, List_eq, ℕ_eq,
}
use vcrpy.Dict
use vcrpy.Dict.{Dict, get}
use vcrpy.Text.Utf8.{decode}
use vcrpy.CaseInsensitiveDict
use vcrpy.Request.{Request, Body, get_body, set_body, encode_body}
use vcrpy.Matchers.Bodies.{body_truth}
use vcrpy.Filters.{Replacement, removals, dict_of}
use vcrpy.Filters.Removals.{is_named, get-dict_of-removals}
use vcrpy.Filters.PostData.{
  Json, split, join, partition, replace_parts, replace_bytes, replace_in, is_json,
  replace_post_data_parameters, remove_post_data_parameters, replace_body,
}

split_cases : (b : Bytes) (sep : ℕ) → (p : Bytes) × (ps : List Bytes) × (split sep b ≡ p ∷ ps)
unfolding split
split_cases [] sep = ([], [], refl)
split_cases (x ∷ b) sep =
    let (p, ps, e) = split_cases b sep in
    elim (Bool-cases (nat_eq x sep)) [
      | inl h ↦ ([], p ∷ ps, rw (e, h))
      | inr h ↦ (x ∷ p, ps, rw (e, h))
    ]

join-cons :
    (sep x : ℕ) (p : Bytes) (ps : List Bytes) → join sep ((x ∷ p) ∷ ps) ≡ x ∷ join sep (p ∷ ps)
unfolding join
join-cons sep x p [] = refl
join-cons sep x p (q ∷ ps) = refl

join-nil :
    (sep : ℕ) (p : Bytes) (ps : List Bytes) → join sep ([] ∷ p ∷ ps) ≡ sep ∷ join sep (p ∷ ps)
unfolding join
join-nil sep p ps = refl

join-split : (sep : ℕ) (b : Bytes) → join sep (split sep b) ≡ b
unfolding split
join-split sep [] = unfold join in refl
join-split sep (x ∷ b) =
    let (p, ps, e) = split_cases b sep in
    let rest : join sep (p ∷ ps) ≡ b = ap (join sep) (sym e) ∙ join-split sep b in
    elim (Bool-cases (nat_eq x sep)) [
      | inl h ↦ rw (e, h) (join-nil sep p ps ∙ cc (rest, (nat_eq_iff x sep).0 h))
      | inr h ↦ rw (e, h) (join-cons sep x p ps ∙ ap (λ k. x ∷ k) rest)
    ]

append-partition :
    (sep : ℕ) (b : Bytes)
    → (partition sep b).0 ++ ((partition sep b).1.0 ++ (partition sep b).1.1) ≡ b
unfolding partition
append-partition sep [] = refl
append-partition sep (x ∷ b) = ground (arith, append-partition sep b)

-- The key of a part, as a text.
abbrev pub key_of : Bytes → Result Str
key_of part = decode (partition b'=' part).0

-- No part has a key that is named, and all keys are texts.
abbrev pub NoneNamed : Dict Str (Replacement Str) → List Bytes → Type 0
NoneNamed replacements =
    All (λ part. (key : Str) × (key_of part ≡ ok key) × (Dict.get key replacements ≡ none))

replace_parts_none :
    (request : Request) (replacements : Dict Str (Replacement Str)) (parts : List Bytes)
    → NoneNamed replacements parts
    → replace_parts request replacements parts ≡ ok parts
unfolding replace_parts
replace_parts_none request replacements [] w = refl
replace_parts_none request replacements (part ∷ parts) ((key, is_text, unnamed), w) =
    rw (
      is_text,
      unnamed,
      replace_parts_none request replacements parts w,
      append-partition b'=' part,
    )

-- A body of bytes whose keys are texts, none of which a replacement names, stays byte for byte as it was:
-- separators, empty fields, fields without a value and their order.
pub replace_bytes_unnamed :
    (request : Request) (replacements : Dict Str (Replacement Str)) (bytes : Bytes)
    → NoneNamed replacements (split b'&' bytes)
    → replace_bytes request replacements bytes
      ≡ ok (record request { stored_body = Body.binary bytes })
unfolding replace_bytes set_body encode_body
replace_bytes_unnamed request replacements bytes w =
    rw (replace_parts_none request replacements (split b'&' bytes) w, join-split b'&' bytes)

-- The key of every part is a text.
abbrev pub HasTextKeys : List Bytes → Type 0
HasTextKeys = All (λ part. (key : Str) × (key_of part ≡ ok key))

abbrev pub is_named_key : List Str → Result Str → Bool
is_named_key names (err e) = false
is_named_key names (ok key) = is_named names key

-- The parts whose key the list does not name.
abbrev pub unnamed_parts : List Str → List Bytes → List Bytes
unnamed_parts names = keep (λ part. not (is_named_key names (key_of part)))

removed_part :
    (request : Request) (names : List Str) (part : Bytes) (parts : List Bytes) (key : Str)
    → (key_of part ≡ ok key)
    → replace_parts request (dict_of (removals names) []) parts ≡ ok (unnamed_parts names parts)
    → replace_parts request (dict_of (removals names) []) (part ∷ parts)
      ≡ ok (unnamed_parts names (part ∷ parts))
unfolding replace_parts Dict.get
removed_part request names part parts key is_text rest =
    let named : is_named_key names (key_of part) ≡ is_named names key =
      ap (is_named_key names) is_text in
    elim (Bool-cases (is_named names key)) [
      | inl h ↦
          rw (is_text, get-dict_of-removals {V = Str} names key [], rest, h)
            (ap ok (sym (keep-false _ part parts (ap not (named ∙ h)))))
      | inr h ↦
          rw
            (
              is_text,
              get-dict_of-removals {V = Str} names key [],
              rest,
              h,
              append-partition b'=' part,
            )
            (ap ok (sym (keep-true _ part parts (ap not (named ∙ h)))))
    ]

remove_parts :
    (request : Request) (names : List Str) (parts : List Bytes)
    → HasTextKeys parts
    → replace_parts request (dict_of (removals names) []) parts ≡ ok (unnamed_parts names parts)
remove_parts request names [] w = unfold replace_parts in refl
remove_parts request names (part ∷ parts) ((key, is_text), w) =
    removed_part request names part parts key is_text (remove_parts request names parts w)

-- A POST request with a body of bytes that is neither empty nor JSON.
pub record IsForm (request : Request) (bytes : Bytes) : Type 0 where
  pub is_post : (request.method == str "POST") ≡ true
  pub has_bytes : get_body request ≡ ok (Body.binary bytes)
  pub not_empty : body_truth (Body.binary bytes) ≡ true
  pub not_json : is_json (CaseInsensitiveDict.get (str "Content-Type") request.headers) ≡ false
  pub text_keys : HasTextKeys (split b'&' bytes)

-- `remove_post_data_parameters` keeps of a form the fields whose key is not named, byte for byte and
-- in their order, and changes nothing else of the request.
pub remove_post_data_removes :
    {J : Type 0} (codec : Json J) (request : Request) (bytes : Bytes) (names : List Str)
    → IsForm request bytes
    → remove_post_data_parameters codec request names
      ≡ ok (record request {
        stored_body = Body.binary (join b'&' (unnamed_parts names (split b'&' bytes)));
      })
unfolding remove_post_data_parameters replace_post_data_parameters replace_in replace_body
    replace_bytes set_body encode_body
remove_post_data_removes codec request bytes names w = rw (
  w.has_bytes,
  w.not_empty,
  w.is_post,
  w.not_json,
  remove_parts request names (split b'&' bytes) w.text_keys,
)
