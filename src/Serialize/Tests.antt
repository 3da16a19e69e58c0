-- ===== src/Serialize/Tests.antt =====
-- The theorem about stored cassettes at a concrete one. The serializer writes cassettes of one plain
-- interaction, as the text of the response.
use vcrpy.Prelude.{
  Bool, List, Result, Str, [], ap, arith, eq_iff, err, if◌then◌else◌, inl, list_eq, ok, raised,
  refl, seconds, some, str, sym, value_error, ℕ, ◌&&◌, ◌==◌, ◌∷◌, ◌≡◌, List_eq, ℕ_eq,
}
use vcrpy.Text.Utf8.{decode}
use vcrpy.Dict
use vcrpy.Dict.{Dict, get, insert}
use vcrpy.Samples.{small_urllib, get_of}
use vcrpy.Request.{Request, Body, HeaderText, bytearray, file, form, iterator, null, sequence}
use vcrpy.Filters.Responses.{Response}
use vcrpy.Serialize.{
  RequestDict, ResponseDict, interactions, Serializer, readable, filesystem_persister,
}
use vcrpy.Serialize.RoundTrip.{IsStorable, ReadsBack, saved_is_loaded}

-- The test for GET of "/", answered 200 OK.
abbrev is_plain : Str → Str → ℕ → Str → Bool
is_plain method uri code message =
    method == str "GET" && (uri == str "/" && (code == 200 && message == str "OK"))

abbrev pack :
    Str
    → Str
    → Body
    → List (Str × List HeaderText)
    → ℕ
    → Str
    → Dict Str (List Str)
    → Body
    → Result Str
pack m u null [] code message [] (Body.text s) =
    if is_plain m u code message then ok s else err (raised value_error)
pack m u body headers code message headers' string = err (raised value_error)

abbrev pack_all : List (RequestDict × ResponseDict) → Result Str
pack_all ((q, p) ∷ []) = pack q.method q.uri q.body q.headers p.code p.message p.headers p.string
pack_all _ = err (raised value_error)

abbrev dict_of : Str → Str → Body → List (Str × List HeaderText) → RequestDict
dict_of m u body headers = record { method = m; uri = u; body = body; headers = headers }

abbrev answer_of : ℕ → Str → Dict Str (List Str) → Body → ResponseDict
answer_of code message headers string = record {
  code = code;
  message = message;
  headers = headers;
  string = string;
}

abbrev unpack : Str → List (RequestDict × ResponseDict)
unpack s = (dict_of (str "GET") (str "/") null [], answer_of 200 (str "OK") [] (Body.text s)) ∷ []

abbrev small_serializer : Serializer
small_serializer = record {
  serialize_data = λ _. pack_all;
  deserialize_data = λ s. ok (interactions (unpack s));
}

packed :
    (m u : Str) (body : Body) (hs : List (Str × List HeaderText)) (code : ℕ) (message : Str)
    (hs' : Dict Str (List Str)) (string : Body) (s : Str)
    → pack m u body hs code message hs' string ≡ ok s
    → unpack s ≡ (dict_of m u body hs, answer_of code message hs' string) ∷ []
packed m u null [] code message [] (Body.text t) s h =
    let plain : (m ≡ str "GET") × (u ≡ str "/") × (code ≡ 200) × (message ≡ str "OK") × (t ≡ s) =
      ground (
        arith,
        eq_iff m (str "GET"),
        eq_iff u (str "/"),
        eq_iff code 200,
        eq_iff message (str "OK"),
        h,
      ) in
    sym (λ j.
      (
        dict_of (plain.0 j) (plain.1 j) null [],
        answer_of (plain.2 j) (plain.3 j) [] (Body.text (plain.4 j)),
      )
      ∷ [])
packed m u null [] code message [] null s h = cc h
packed m u null [] code message [] (Body.binary _) s h = cc h
packed m u null [] code message [] (bytearray _) s h = cc h
packed m u null [] code message [] (sequence _) s h = cc h
packed m u null [] code message [] (form _) s h = cc h
packed m u null [] code message [] (file _) s h = cc h
packed m u null [] code message [] (iterator _) s h = cc h
packed m u null [] code message (_ ∷ _) string s h = cc h
packed m u null (_ ∷ _) code message hs' string s h = cc h
packed m u (Body.text _) hs code message hs' string s h = cc h
packed m u (Body.binary _) hs code message hs' string s h = cc h
packed m u (bytearray _) hs code message hs' string s h = cc h
packed m u (sequence _) hs code message hs' string s h = cc h
packed m u (form _) hs code message hs' string s h = cc h
packed m u (file _) hs code message hs' string s h = cc h
packed m u (iterator _) hs code message hs' string s h = cc h

small_serializer-ReadsBack : ReadsBack small_serializer
small_serializer-ReadsBack version [] s h = cc h
small_serializer-ReadsBack version ((q, p) ∷ []) s h =
    ap (λ l. ok (interactions l))
      (packed q.method q.uri q.body q.headers p.code p.message p.headers p.string s h)
small_serializer-ReadsBack version (_ ∷ _ ∷ _) s h = cc h

abbrev plain_get : Request
plain_get = record (get_of (str "/")) { headers = record { store = [] } }

abbrev exchanged : List (Request × Response)
exchanged =
    (plain_get, record { code = 200; message = str "OK"; headers = []; string = str "hi" }) ∷ []

plain_get-IsStorable : IsStorable small_urllib plain_get
plain_get-IsStorable = record {
  parsed = refl;
  no_file = refl;
  no_iterator = refl;
  plain = inl refl;
  store = record { lowered = tt; distinct = tt };
}

saved_is_loaded_example :
    ((filesystem_persister small_urllib small_serializer (str "tape")).load_cassette
        ((str "tape", readable (str "hi")) ∷ [])
      ≡ ok (plain_get ∷ [], seconds exchanged))
    × (s : Str) × (Dict.get (str "other") ((str "tape", readable (str "hi")) ∷ [])
        ≡ (if str "tape" == str "other" then some (readable s) else Dict.get (str "other") []))
saved_is_loaded_example =
    saved_is_loaded small_urllib small_serializer (str "tape") (str "other") exchanged []
      ((str "tape", readable (str "hi")) ∷ []) small_serializer-ReadsBack (plain_get-IsStorable, tt)
      (unfold filesystem_persister decode Dict.insert list_eq in refl)
