-- ===== src/Text/Tests.antt =====
-- Runs of the text functions, and the theorem about UTF-8 at a concrete text.
use vcrpy.Prelude.{[], arith, list_eq, ok, refl, str, true, ◌∷◌, ◌≡◌, List_eq, ℕ_eq}
use vcrpy.Text.{lower, is_in}
use vcrpy.Text.Utf8.{encode, decode, decode-encode}

lower_example : lower (str "Content-Type") ≡ str "content-type"
unfolding lower
lower_example = refl

is_in_example : is_in (str "json") (str "application/json") ≡ true
unfolding is_in list_eq
is_in_example = refl

-- é, as two bytes
decode-encode_example : decode (99 ∷ 195 ∷ 169 ∷ []) ≡ ok (99 ∷ 233 ∷ [])
decode-encode_example =
    decode-encode (99 ∷ 233 ∷ []) (99 ∷ 195 ∷ 169 ∷ []) (unfold encode in ground arith)
      (unfold encode in refl)
