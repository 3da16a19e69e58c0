-- ===== src/Text/Utf8.antt =====
-- `str.encode("utf-8")` and `bytes.decode("utf-8")`.
pub mod Inverse
use vcrpy.Prelude.{
  All, Bool, Bool-cases, Bytes, Result, Str, [], ap, arith, err, false, if◌then◌else◌, inl, inr,
  leb, length, length-append, ltb, ok, ok-injective, ok_of_bind, raised, refl, subst, suc, sym,
  true, unicode_error, zero, ℕ, ◌%◌, ◌&&◌, ◌*◌, ◌++◌, ◌+◌, ◌-◌, ◌/◌, ◌<◌, ◌>>=◌, ◌||◌, ◌∙◌, ◌∷◌,
  ◌≡◌, ◌≤◌,
}

-- The bytes of one code point; a surrogate has none.
unfoldable pub encode_char : ℕ → Result Bytes
encode_char c =
    if ltb c 0x80
    then ok (c ∷ [])
    else if ltb c 0x800
    then ok ((0xC0 + c / 0x40) ∷ (0x80 + c % 0x40) ∷ [])
    else if leb 0xD800 c && leb c 0xDFFF
    then err (raised unicode_error)
    else if ltb c 0x10000
    then ok ((0xE0 + c / 0x1000) ∷ (0x80 + c / 0x40 % 0x40) ∷ (0x80 + c % 0x40) ∷ [])
    else ok (
        (0xF0 + c / 0x40000)
        ∷ (0x80 + c / 0x1000 % 0x40)
        ∷ (0x80 + c / 0x40 % 0x40)
        ∷ (0x80 + c % 0x40)
        ∷ [])

unfoldable pub encode : Str → Result Bytes
unfolding encode_char
encode [] = ok []
encode (c ∷ s) = do here ← encode_char c; rest ← encode s; ok (here ++ rest)

-- A byte 10xxxxxx, which goes on with a character, and the bits that it adds.
abbrev is_continuation : ℕ → Bool
is_continuation b = leb 0x80 b && ltb b 0xC0

abbrev bits : ℕ → ℕ
bits b = b - 0x80

-- The character, if the test for its form is passed.
abbrev checked : Bool → ℕ → Bytes → Result (ℕ × Bytes)
checked true c rest = ok (c, rest)
checked false c rest = err (raised unicode_error)

decode_two : ℕ → Bytes → Result (ℕ × Bytes)
decode_two a (b ∷ rest) = checked (is_continuation b) ((a - 0xC0) * 0x40 + bits b) rest
decode_two a [] = err (raised unicode_error)

-- Overlong forms and surrogates are refused.
decode_three : ℕ → Bytes → Result (ℕ × Bytes)
decode_three a (b ∷ c ∷ rest) =
    let value = (a - 0xE0) * 0x1000 + bits b * 0x40 + bits c in
    checked
      (is_continuation b
        && is_continuation c
        && leb 0x800 value
        && (ltb value 0xD800 || ltb 0xDFFF value))
      value rest
decode_three a _ = err (raised unicode_error)

decode_four : ℕ → Bytes → Result (ℕ × Bytes)
decode_four a (b ∷ c ∷ d ∷ rest) =
    let value = (a - 0xF0) * 0x40000 + bits b * 0x1000 + bits c * 0x40 + bits d in
    checked
      (is_continuation b
        && is_continuation c
        && is_continuation d
        && leb 0x10000 value
        && ltb value 0x110000)
      value rest
decode_four a _ = err (raised unicode_error)

-- The first character and the bytes after it.
decode_char : ℕ → Bytes → Result (ℕ × Bytes)
decode_char a rest =
    if ltb a 0x80
    then ok (a, rest)
    else if ltb a 0xC0
    then err (raised unicode_error)
    else if ltb a 0xE0
    then (if ltb a 0xC2 then err (raised unicode_error) else decode_two a rest)
    else if ltb a 0xF0
    then decode_three a rest
    else if ltb a 0xF8
    then decode_four a rest
    else err (raised unicode_error)

-- A character takes a byte at least, so the number of bytes is fuel enough.
decode_from : ℕ → Bytes → Result Str
decode_from fuel [] = ok []
decode_from zero (a ∷ rest) = err (raised unicode_error)
decode_from (suc fuel) (a ∷ rest) = do
  (c, rest') ← decode_char a rest
  s ← decode_from fuel rest'
  ok (c ∷ s)

unfoldable pub decode : Bytes → Result Str
unfolding decode_from decode_char decode_two decode_three decode_four
decode bytes = decode_from (length bytes) bytes

-- Unicode ends at 0x10FFFF.
abbrev pub IsText : Str → Type 0
IsText = All (λ c. c < 0x110000)

-- The first byte and the others of an encoded character, and that decoding inverts that.
record IsEncoded (c : ℕ) (bytes rest : Bytes) : Type 0 where
  lead : ℕ
  others : Bytes
  shape : bytes ≡ lead ∷ others
  decoded : decode_char lead (others ++ rest) ≡ ok (c, rest)

encode_char-two :
    (c : ℕ) (rest : Bytes)
    → 0x80 ≤ c
    → c < 0x800
    → decode_two (0xC0 + c / 0x40) ((0x80 + c % 0x40) ∷ rest) ≡ ok (c, rest)
unfolding decode_two
encode_char-two c rest h k = ground arith

encode_char-three :
    (c : ℕ) (rest : Bytes)
    → 0x800 ≤ c
    → c < 0x10000
    → (leb 0xD800 c && leb c 0xDFFF) ≡ false
    → decode_three (0xE0 + c / 0x1000) ((0x80 + c / 0x40 % 0x40) ∷ (0x80 + c % 0x40) ∷ rest)
      ≡ ok (c, rest)
unfolding decode_three
encode_char-three c rest h k s = ground arith

encode_char-four :
    (c : ℕ) (rest : Bytes)
    → 0x10000 ≤ c
    → c < 0x110000
    → decode_four
        (0xF0 + c / 0x40000)
        ((0x80 + c / 0x1000 % 0x40) ∷ (0x80 + c / 0x40 % 0x40) ∷ (0x80 + c % 0x40) ∷ rest)
      ≡ ok (c, rest)
unfolding decode_four
encode_char-four c rest h k = ground arith

encode_char-IsEncoded :
    (c : ℕ) (bytes rest : Bytes) → c < 0x110000 → encode_char c ≡ ok bytes → IsEncoded c bytes rest
unfolding encode_char decode_char
encode_char-IsEncoded c bytes rest h e = elim (Bool-cases (ltb c 0x80)) [
  | inl one ↦ record {
    lead = c;
    others = [];
    shape = sym (ok-injective (rw one at e));
    decoded = rw one;
  }
  | inr more ↦ elim (Bool-cases (ltb c 0x800)) [
    | inl two ↦ record {
      lead = 0xC0 + c / 0x40;
      others = (0x80 + c % 0x40) ∷ [];
      shape = sym (ok-injective (rw (more, two) at e));
      decoded = ground (arith, encode_char-two c rest);
    }
    | inr more' ↦ elim (Bool-cases (leb 0xD800 c && leb c 0xDFFF)) [
      | inl surrogate ↦ (let none' = rw (more, more', surrogate) at e in cc none')
      | inr proper ↦ elim (Bool-cases (ltb c 0x10000)) [
        | inl three ↦ record {
          lead = 0xE0 + c / 0x1000;
          others = (0x80 + c / 0x40 % 0x40) ∷ (0x80 + c % 0x40) ∷ [];
          shape = sym (ok-injective (rw (more, more', proper, three) at e));
          decoded = ground (arith, encode_char-three c rest);
        }
        | inr four ↦ record {
          lead = 0xF0 + c / 0x40000;
          others = (0x80 + c / 0x1000 % 0x40) ∷ (0x80 + c / 0x40 % 0x40) ∷ (0x80 + c % 0x40) ∷ [];
          shape = sym (ok-injective (rw (more, more', proper, four) at e));
          decoded = ground (arith, encode_char-four c rest);
        }
      ]
    ]
  ]
]

decode_from-cons :
    (fuel : ℕ) {c : ℕ} {s : Str} {here rest : Bytes} (first : IsEncoded c here rest)
    → ((n : ℕ) → length rest ≤ n → decode_from n rest ≡ ok s)
    → suc (length first.others + length rest) ≤ fuel
    → decode_from fuel (first.lead ∷ (first.others ++ rest)) ≡ ok (c ∷ s)
unfolding decode_from
decode_from-cons zero first later h = absurd (omega arith)
decode_from-cons (suc n) first later h = rw (first.decoded, later n (omega arith))

decode_from-encode :
    (s : Str) (bytes : Bytes) (fuel : ℕ)
    → IsText s
    → encode s ≡ ok bytes
    → length bytes ≤ fuel
    → decode_from fuel bytes ≡ ok s
unfolding encode decode_from
decode_from-encode [] bytes fuel t e h =
    subst (λ b. decode_from fuel b ≡ ok []) (ok-injective e) refl
decode_from-encode (c ∷ s) bytes fuel t e h =
    let (here, eh, e1) = ok_of_bind (encode_char c) _ e in
    let (rest, er, e2) = ok_of_bind (encode s) _ e1 in
    let first = encode_char-IsEncoded c here rest t.0 eh in
    let whole : first.lead ∷ (first.others ++ rest) ≡ bytes =
      ap (λ b. b ++ rest) (sym first.shape) ∙ ok-injective e2 in
    let room : suc (length (first.others ++ rest)) ≡ length bytes = ap length whole in
    subst (λ b. decode_from fuel b ≡ ok (c ∷ s)) whole
      (decode_from-cons fuel first (λ n k. decode_from-encode s rest n t.1 er k)
        (omega (arith, length-append first.others rest)))

-- Decoding what a text was encoded to gives the text back.
pub decode-encode : (s : Str) (bytes : Bytes) → IsText s → encode s ≡ ok bytes → decode bytes ≡ ok s
unfolding decode
decode-encode s bytes t e = decode_from-encode s bytes (length bytes) t e (omega arith)
