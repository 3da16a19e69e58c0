-- ===== src/Text/Utf8/Inverse.antt =====
-- Bytes that UTF-8 decodes are those that it encodes the text to.
use vcrpy.Prelude.{
  Bool, Bool-cases, Bytes, Str, [], ap, arith, false, inl, inr, leb, ltb, ok, ok-injective,
  ok_of_bind, refl, subst, suc, sym, true, zero, ℕ, ◌%◌, ◌&&◌, ◌*◌, ◌++◌, ◌+◌, ◌-◌, ◌/◌, ◌<◌, ◌||◌,
  ◌∙◌, ◌∷◌, ◌≡◌, ◌≤◌,
}
use vcrpy.Text.Utf8.{
  encode_char, encode, decode, decode_two, decode_three, decode_four, decode_char, decode_from,
  checked, is_continuation, bits,
}

checked_value :
    (test : Bool) (c : ℕ) (rest : Bytes) {d : ℕ} {rest' : Bytes}
    → checked test c rest ≡ ok (d, rest')
    → (test ≡ true) × (c ≡ d) × (rest ≡ rest')
checked_value true c rest h =
    let same = ok-injective h in (refl, (λ i. (same i).0), λ i. (same i).1)
checked_value false c rest h = cc h

-- The bytes of a character that was decoded.
abbrev FromBytes : ℕ → Bytes → ℕ → Bytes → Type 0
FromBytes a rest c rest' = (here : Bytes) × (encode_char c ≡ ok here) × (a ∷ rest ≡ here ++ rest')

two_of :
    (a b c : ℕ)
    → 0xC2 ≤ a
    → a < 0xE0
    → is_continuation b ≡ true
    → (a - 0xC0) * 0x40 + bits b ≡ c
    → encode_char c ≡ ok (a ∷ b ∷ [])
unfolding encode_char
two_of a b c low high h same =
    let bounds : (0x80 ≤ b) × (b < 0xC0) = ground arith in
    let range : (0x80 ≤ c) × (c < 0x800) = (omega (arith, bounds.0), omega (arith, bounds.1)) in
    let first : 0xC0 + c / 0x40 ≡ a = omega (arith, bounds) in
    let second : 0x80 + c % 0x40 ≡ b = omega (arith, bounds) in
    let small : ltb c 0x80 ≡ false = ground arith in
    let fits : ltb c 0x800 ≡ true = ground arith in rw (small, fits, first, second)

three_of :
    (a b d c : ℕ)
    → 0xE0 ≤ a
    → a < 0xF0
    → (is_continuation b && is_continuation d && leb 0x800 c && (ltb c 0xD800 || ltb 0xDFFF c))
      ≡ true
    → (a - 0xE0) * 0x1000 + bits b * 0x40 + bits d ≡ c
    → encode_char c ≡ ok (a ∷ b ∷ d ∷ [])
unfolding encode_char
three_of a b d c low high h same =
    let bounds : (0x80 ≤ b) × (b < 0xC0) × (0x80 ≤ d) × (d < 0xC0) = ground arith in
    let first : 0xE0 + c / 0x1000 ≡ a = omega (arith, bounds) in
    let second : 0x80 + c / 0x40 % 0x40 ≡ b = omega (arith, bounds) in
    let third : 0x80 + c % 0x40 ≡ d = omega (arith, bounds) in
    let small : ltb c 0x80 ≡ false = ground arith in
    let fits : ltb c 0x800 ≡ false = ground arith in
    let surrogate : (leb 0xD800 c && leb c 0xDFFF) ≡ false = ground arith in
    let wide : ltb c 0x10000 ≡ true = ground (arith, bounds) in
    rw (small, fits, surrogate, wide, first, second, third)

four_of :
    (a b d e c : ℕ)
    → 0xF0 ≤ a
    → (is_continuation b
        && is_continuation d
        && is_continuation e
        && leb 0x10000 c
        && ltb c 0x110000)
      ≡ true
    → (a - 0xF0) * 0x40000 + bits b * 0x1000 + bits d * 0x40 + bits e ≡ c
    → encode_char c ≡ ok (a ∷ b ∷ d ∷ e ∷ [])
unfolding encode_char
four_of a b d e c low h same =
    let bounds : (0x80 ≤ b) × (b < 0xC0) × (0x80 ≤ d) × (d < 0xC0) × (0x80 ≤ e) × (e < 0xC0) =
      ground arith in
    let first : 0xF0 + c / 0x40000 ≡ a = omega (arith, bounds) in
    let second : 0x80 + c / 0x1000 % 0x40 ≡ b = omega (arith, bounds) in
    let third : 0x80 + c / 0x40 % 0x40 ≡ d = omega (arith, bounds) in
    let fourth : 0x80 + c % 0x40 ≡ e = omega (arith, bounds) in
    let small : ltb c 0x80 ≡ false = ground arith in
    let fits : ltb c 0x800 ≡ false = ground arith in
    let surrogate : (leb 0xD800 c && leb c 0xDFFF) ≡ false = ground arith in
    let wide : ltb c 0x10000 ≡ false = ground arith in
    rw (small, fits, surrogate, wide, first, second, third, fourth)

encoded_two :
    (a c : ℕ) (rest rest' : Bytes)
    → 0xC2 ≤ a
    → a < 0xE0
    → decode_two a rest ≡ ok (c, rest')
    → FromBytes a rest c rest'
unfolding decode_two
encoded_two a c [] rest' low high h = cc h
encoded_two a c (b ∷ rest) rest' low high h =
    let (test, same, left) = checked_value _ _ rest h in
    (a ∷ b ∷ [], two_of a b c low high test same, λ i. a ∷ b ∷ left i)

encoded_three :
    (a c : ℕ) (rest rest' : Bytes)
    → 0xE0 ≤ a
    → a < 0xF0
    → decode_three a rest ≡ ok (c, rest')
    → FromBytes a rest c rest'
unfolding decode_three
encoded_three a c [] rest' low high h = cc h
encoded_three a c (b ∷ []) rest' low high h = cc h
encoded_three a c (b ∷ d ∷ rest) rest' low high h =
    let (test, same, left) = checked_value _ _ rest h in
    (
      a ∷ b ∷ d ∷ [],
      three_of a b d c low high (ground (arith, test, same)) same,
      λ i. a ∷ b ∷ d ∷ left i,
    )

encoded_four :
    (a c : ℕ) (rest rest' : Bytes)
    → 0xF0 ≤ a
    → decode_four a rest ≡ ok (c, rest')
    → FromBytes a rest c rest'
unfolding decode_four
encoded_four a c [] rest' low h = cc h
encoded_four a c (b ∷ []) rest' low h = cc h
encoded_four a c (b ∷ d ∷ []) rest' low h = cc h
encoded_four a c (b ∷ d ∷ e ∷ rest) rest' low h =
    let (test, same, left) = checked_value _ _ rest h in
    (
      a ∷ b ∷ d ∷ e ∷ [],
      four_of a b d e c low (ground (arith, test, same)) same,
      λ i. a ∷ b ∷ d ∷ e ∷ left i,
    )

encoded_one :
    (a c : ℕ) (rest rest' : Bytes)
    → a < 0x80
    → checked true a rest ≡ ok (c, rest')
    → FromBytes a rest c rest'
unfolding encode_char
encoded_one a c rest rest' low h =
    let (_, same, left) = checked_value true a rest h in
    let small : ltb a 0x80 ≡ true = ground arith in
    (c ∷ [], subst (λ d. encode_char d ≡ ok (d ∷ [])) same (rw small), λ i. same i ∷ left i)

encoded_char :
    (a c : ℕ) (rest rest' : Bytes) → decode_char a rest ≡ ok (c, rest') → FromBytes a rest c rest'
unfolding decode_char
encoded_char a c rest rest' h = elim (Bool-cases (ltb a 0x80)) [
  | inl e ↦ encoded_one a c rest rest' (ground arith) (rw e at h)
  | inr e ↦ elim (Bool-cases (ltb a 0xC0)) [
    | inl e1 ↦ (let bad = rw (e, e1) at h in cc bad)
    | inr e1 ↦ elim (Bool-cases (ltb a 0xE0)) [
      | inl e2 ↦ elim (Bool-cases (ltb a 0xC2)) [
        | inl e3 ↦ (let bad = rw (e, e1, e2, e3) at h in cc bad)
        | inr e3 ↦
            encoded_two a c rest rest' (ground arith) (ground arith) (rw (e, e1, e2, e3) at h)
      ]
      | inr e2 ↦ elim (Bool-cases (ltb a 0xF0)) [
        | inl e3 ↦
            encoded_three a c rest rest' (ground arith) (ground arith) (rw (e, e1, e2, e3) at h)
        | inr e3 ↦ elim (Bool-cases (ltb a 0xF8)) [
          | inl e4 ↦ encoded_four a c rest rest' (ground arith) (rw (e, e1, e2, e3, e4) at h)
          | inr e4 ↦ (let bad = rw (e, e1, e2, e3, e4) at h in cc bad)
        ]
      ]
    ]
  ]
]

encode_of_decode_from :
    (fuel : ℕ) (bytes : Bytes) (s : Str) → decode_from fuel bytes ≡ ok s → encode s ≡ ok bytes
unfolding decode_from encode
encode_of_decode_from zero [] s h = rw (← ok-injective h)
encode_of_decode_from zero (a ∷ rest) s h = cc h
encode_of_decode_from (suc fuel) [] s h = rw (← ok-injective h)
encode_of_decode_from (suc fuel) (a ∷ rest) s h =
    let (p, first, h1) = ok_of_bind (decode_char a rest) _ h in
    let (t, others, h2) = ok_of_bind (decode_from fuel p.1) _ h1 in
    let (here, coded, parts) = encoded_char a p.0 rest p.1 first in
    let tail : encode t ≡ ok p.1 = encode_of_decode_from fuel p.1 t others in
    let whole : encode (p.0 ∷ t) ≡ ok (here ++ p.1) = rw (coded, tail) in
    ap encode (sym (ok-injective h2)) ∙ (whole ∙ ap ok (sym parts))

-- Encoding a decoded text gives back the bytes.
pub encode-decode : (bytes : Bytes) (s : Str) → decode bytes ≡ ok s → encode s ≡ ok bytes
unfolding decode
encode-decode bytes s h = encode_of_decode_from _ bytes s h
