-- ===== src/Connection/Reading.antt =====
-- vcrmartin/stubs/__init__.py, what `VCRHTTPResponse` does with its `_content`, an `io.BytesIO`, and with
-- its headers. `http.client.parse_headers` is a parameter, and so is the order of `set(keys)`.
use vcrpy.Prelude.{
  Bytes, List, Option, Result, Run, Str, [], drop, ended, firsts, if◌then◌else◌, keep, leb, length,
  map, none, not, ok, runs_on, seconds, some, str, suc, then_run, zero, ℕ, ◌&&◌, ◌++◌, ◌+◌, ◌-◌,
  ◌==◌, ◌>>=◌, ◌∷◌, List_eq, ℕ_eq,
}
use vcrpy.Text.{lower}
use vcrpy.Text.Utf8.{encode}
use vcrpy.Dict.{Dict}
use vcrpy.Connection.Responses.{VcrResponse, read}

-- Python's integers, over the native numbers.
pub data ℤ : Type 0 where
  pos : ℕ → ℤ
  negsuc : ℕ → ℤ

unfoldable pub difference : ℕ → ℕ → ℤ
difference a b = if leb b a then pos (a - b) else negsuc (b - a - 1)

-- The bytes up to a line feed, with it.
unfoldable pub first_line : Bytes → Bytes
first_line [] = []
first_line (b ∷ bytes) = if b == b'\n' then b ∷ [] else b ∷ first_line bytes

unfoldable pub readline : VcrResponse → Bytes × VcrResponse
unfolding first_line
readline r =
    let line = first_line (drop r.position r.contents) in
    (line, record r { position = r.position + length line })

-- seek(position), from the start
unfoldable pub seek : ℕ → VcrResponse → ℕ × VcrResponse
seek position r = (position, record r { position = position })

unfoldable pub tell : VcrResponse → ℕ
tell r = r.position

-- self._content.getbuffer().nbytes - self._content.tell()
unfoldable pub length_remaining : VcrResponse → ℤ
unfolding difference tell
length_remaining r = difference (length r.contents) (tell r)

-- `data`: all of the content, wherever it was read to.
unfoldable pub whole_content : VcrResponse → Bytes
whole_content r = r.contents

-- yield b; if not b: break
abbrev pub next_piece :
    Bytes → VcrResponse → Run (List Bytes × VcrResponse) → Run (List Bytes × VcrResponse)
next_piece [] r rest = ended (ok ([] ∷ [], r))
next_piece (c ∷ b) r rest = then_run rest (λ outcome. ended (ok ((c ∷ b) ∷ outcome.0, outcome.1)))

-- `stream`, for at most `n` rounds: the pieces that it yields, the empty one at the end too.
unfoldable pub stream : ℕ → ℕ → VcrResponse → Run (List Bytes × VcrResponse)
unfolding read
stream zero amt r = runs_on
stream (suc n) amt r = let (b, r') = read (some amt) r in next_piece b r' (stream n amt r')

-- The text of the headers that `parse_headers` makes, and what http.client reads of it.
pub record Messages : Type 0 where
  pub get_httpmessage : Bytes → List (Str × Str)
  pub in_set_order : List Str → List Str

abbrev crlf : Bytes
crlf = 13 ∷ 10 ∷ []

unfoldable pub header_lines : Str → List Str → Result Bytes
unfolding encode
header_lines key [] = ok []
header_lines key (v ∷ values) = do
  name ← encode key
  value ← encode v
  others ← header_lines key values
  ok (name ++ b':' ∷ value ++ crlf ++ others)

unfoldable pub header_string : Dict Str (List Str) → Result Bytes
unfolding header_lines
header_string [] = ok []
header_string ((key, values) ∷ rest) = do
  lines ← header_lines key values
  others ← header_string rest
  ok (lines ++ others)

-- message.get_all(key), which does not regard case.
abbrev get_all : Str → List (Str × Str) → List Str
get_all key [] = []
get_all key ((name, value) ∷ rest) =
    if lower name == lower key then value ∷ get_all key rest else get_all key rest

abbrev header_items_of : List Str → List (Str × Str) → List (Str × Str)
header_items_of [] message = []
header_items_of (key ∷ keys) message =
    map (λ v. (key, v)) (get_all key message) ++ header_items_of keys message

abbrev without_copies : List Str → List Str
without_copies [] = []
without_copies (k ∷ keys) = k ∷ keep (λ j. not (j == k)) (without_copies keys)

-- ", ".join(values)
abbrev join_values : List Str → Str
join_values [] = []
join_values (v ∷ []) = v
join_values (v ∷ w ∷ values) = v ++ str ", " ++ join_values (w ∷ values)

-- What `get_redirect_location` returns: `False`, `None` or a text.
pub data Location : Type 0 where
  no_redirect : Location
  no_location : Location
  location : Str → Location

module _ (messages : Messages) where
  -- `parse_headers`
  unfoldable pub parse_headers : Dict Str (List Str) → Result (List (Str × Str))
  unfolding header_string
  parse_headers headers = do text ← header_string headers; ok (messages.get_httpmessage text)

  -- `get_header_items` of stubs/compat.py: `get_headers` goes over the set of the names.
  unfoldable pub get_header_items : List (Str × Str) → List (Str × Str)
  get_header_items message =
      header_items_of (messages.in_set_order (without_copies (firsts message))) message

  unfoldable pub getheaders : VcrResponse → Result (List (Str × Str))
  unfolding parse_headers get_header_items
  getheaders r = do message ← parse_headers r.headers; ok (get_header_items message)

  -- `getheader`; `none` is the default `None`.
  unfoldable pub getheader : Str → VcrResponse → Result (Option Str)
  unfolding getheaders lower
  getheader header r = do
    items ← getheaders r
    ok (elim (seconds (keep (λ (x : Str × Str). lower x.0 == lower header) items)) [
      | [] ↦ none
      | v ∷ values ↦ some (join_values (v ∷ values))
    ])

  abbrev location_or : Option Str → Location
  location_or none = no_location
  location_or (some l) = location l

  unfoldable pub get_redirect_location : VcrResponse → Result Location
  unfolding getheader
  get_redirect_location r =
      if leb 300 r.status && leb r.status 399
      then (do found ← getheader (str "Location") r; ok (location_or found))
      else ok no_redirect
