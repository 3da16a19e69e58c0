-- ===== src/Dechunk/Decoding.antt =====
-- The loop of `_dechunk` in vcrmartin/matchers.py inverts the chunked transfer encoding.
use vcrpy.Prelude.{
  All, Bytes, List, Option, [], ap, append-nil, append_assoc, arith, concat, drop, drop-append,
  eq_iff, false, length, length-append, nat_eq, none, ok, refl, some, subst, suc, sym, take-append,
  true, zero, ℕ, ◌++◌, ◌+◌, ◌-◌, ◌<◌, ◌∙◌, ◌∷◌, ◌≡◌, ℕ_eq, List_eq,
}
use vcrpy.Dechunk.{
  chunk_gap, is_hexdigit, int_of_hex, slice, scan, Round, returns, goes_on, take_chunk, round_at,
  loop, dechunk,
}

-- A chunk with the digits of its size, which is not 0.
pub record Piece : Type 0 where
  pub digits : Bytes
  pub contents : Bytes

abbrev pub AreHexdigits : Bytes → Type 0
AreHexdigits = All (λ b. is_hexdigit b ≡ true)

pub record IsPiece (p : Piece) : Type 0 where
  pub hexadecimal : AreHexdigits p.digits
  pub size : int_of_hex p.digits ≡ ok (length p.contents)
  pub non_empty : 0 < length p.contents

-- The transfer encoding: each chunk behind its size, and at the end the size 0 with whatever
-- follows the gap.
abbrev pub encoded : Bytes → Bytes → List Piece → Bytes
encoded zero_digits trailer [] = zero_digits ++ (chunk_gap ++ trailer)
encoded zero_digits trailer (p ∷ ps) =
    p.digits ++ (chunk_gap ++ (p.contents ++ (chunk_gap ++ encoded zero_digits trailer ps)))

abbrev pub contents_of : List Piece → List Bytes
contents_of [] = []
contents_of (p ∷ ps) = p.contents ∷ contents_of ps

drop-length_add : (xs ys : Bytes) (n : ℕ) → drop (length xs + n) (xs ++ ys) ≡ drop n ys
drop-length_add [] ys n = let same : 0 + n ≡ n = omega arith in rw same
drop-length_add (x ∷ xs) ys n =
    let same : suc (length xs) + n ≡ suc (length xs + n) = omega arith in
    rw same (drop-length_add xs ys n)

-- What stands behind `xs` and before `zs`.
slice_part :
    (a b : ℕ) (xs ys zs : Bytes)
    → a ≡ length xs
    → b ≡ length xs + length ys
    → slice a b (xs ++ (ys ++ zs)) ≡ ys
slice_part a b xs ys zs ea eb =
    let size : b - a ≡ length ys = omega (arith, ea, eb) in
    let rest : drop a (xs ++ (ys ++ zs)) ≡ ys ++ zs = rw ea (drop-append xs (ys ++ zs)) in
    rw (size, rest) (take-append ys zs)

scan_digits :
    (digits rest : Bytes) (pos : ℕ) (i : Option ℕ)
    → AreHexdigits digits
    → scan (digits ++ (chunk_gap ++ rest)) pos i ≡ some (pos + length digits)
unfolding scan
scan_digits [] rest pos i h = ground arith
scan_digits (b ∷ digits) rest pos i h =
    rw h.0 (scan_digits digits rest (pos + 1) (some pos) h.1 ∙ (ground arith))

-- A body of the parts of a chunk between `before` and `rest`.
module _ (before digits contents rest : Bytes) where
  abbrev body_of : Bytes
  body_of = before ++ (digits ++ (chunk_gap ++ (contents ++ (chunk_gap ++ rest))))

  abbrev end_of_digits : ℕ
  end_of_digits = length before + length digits

  slice_size : slice (length before) end_of_digits body_of ≡ digits
  slice_size = slice_part (length before) end_of_digits before digits _ refl refl

  slice_first_gap : slice end_of_digits (end_of_digits + 2) body_of ≡ chunk_gap
  slice_first_gap =
      let parts : (before ++ digits) ++ (chunk_gap ++ (contents ++ (chunk_gap ++ rest))) ≡ body_of =
        simp append_assoc in
      subst (λ b. slice end_of_digits (end_of_digits + 2) b ≡ chunk_gap) parts
        (slice_part end_of_digits (end_of_digits + 2) (before ++ digits) chunk_gap _
          (omega (arith, length-append before digits)) (omega (arith, length-append before digits)))

  slice_contents :
      (n : ℕ)
      → n ≡ length contents
      → slice (end_of_digits + 2) (end_of_digits + 2 + n) body_of ≡ contents
  slice_contents n e =
      let parts : (before ++ (digits ++ chunk_gap)) ++ (contents ++ (chunk_gap ++ rest)) ≡ body_of =
        simp append_assoc in
      let size : length (before ++ (digits ++ chunk_gap)) ≡ end_of_digits + 2 =
        omega (arith, length-append before (digits ++ chunk_gap), length-append digits chunk_gap) in
      subst (λ b. slice (end_of_digits + 2) (end_of_digits + 2 + n) b ≡ contents) parts
        (slice_part (end_of_digits + 2) (end_of_digits + 2 + n) (before ++ (digits ++ chunk_gap))
          contents _ (sym size) (omega (arith, size, e)))

  slice_last_gap :
      (n : ℕ)
      → n ≡ length contents
      → slice (end_of_digits + 2 + n) (end_of_digits + 2 + n + 2) body_of ≡ chunk_gap
  slice_last_gap n e =
      let front = before ++ (digits ++ (chunk_gap ++ contents)) in
      let parts : front ++ (chunk_gap ++ rest) ≡ body_of = simp append_assoc in
      let size : length front ≡ end_of_digits + 2 + n = omega (
        arith,
        e,
        length-append before (digits ++ (chunk_gap ++ contents)),
        length-append digits (chunk_gap ++ contents),
      ) in
      subst (λ b. slice (end_of_digits + 2 + n) (end_of_digits + 2 + n + 2) b ≡ chunk_gap) parts
        (slice_part (end_of_digits + 2 + n) (end_of_digits + 2 + n + 2) front chunk_gap rest
          (sym size) (omega (arith, size)))

  round_piece :
      (chunks : List Bytes) (n : ℕ)
      → 0 < length digits
      → int_of_hex digits ≡ ok (suc n)
      → suc n ≡ length contents
      → round_at body_of (length before) chunks (some end_of_digits)
        ≡ goes_on (end_of_digits + 2 + suc n + 2) end_of_digits contents
  unfolding round_at take_chunk
  round_piece chunks n some_digits size e =
      let positive : nat_eq end_of_digits 0 ≡ false = ground arith in
      let gap = (eq_iff _ chunk_gap).1 slice_first_gap in
      let gap' = (eq_iff _ chunk_gap).1 (slice_last_gap (suc n) e) in
      rw (positive, gap, slice_size, size, gap', slice_contents (suc n) e)

round_end :
    (before digits trailer : Bytes) (chunks : List Bytes)
    → 0 < length digits
    → int_of_hex digits ≡ ok 0
    → round_at
        (before ++ (digits ++ (chunk_gap ++ trailer)))
        (length before)
        chunks
        (some (length before + length digits))
      ≡ returns (concat chunks)
unfolding round_at take_chunk
round_end before digits trailer chunks some_digits size =
    let i = length before + length digits in
    let body = before ++ (digits ++ (chunk_gap ++ trailer)) in
    let positive : nat_eq i 0 ≡ false = ground arith in
    let parts : (before ++ digits) ++ (chunk_gap ++ trailer) ≡ body = simp append_assoc in
    let gap : slice i (i + 2) body ≡ chunk_gap =
      subst (λ b. slice i (i + 2) b ≡ chunk_gap) parts
        (slice_part i (i + 2) (before ++ digits) chunk_gap trailer
          (omega (arith, length-append before digits))
          (omega (arith, length-append before digits))) in
    let read : slice (length before) i body ≡ digits =
      slice_part (length before) i before digits _ refl refl in
    rw (positive, (eq_iff _ chunk_gap).1 gap, read, size)

concat-append_one :
    (chunks : List Bytes) (c : Bytes) → concat (chunks ++ c ∷ []) ≡ concat chunks ++ c
concat-append_one [] c = append-nil c
concat-append_one (d ∷ chunks) c =
    ap (λ k. d ++ k) (concat-append_one chunks c) ∙ sym (append_assoc d (concat chunks) c)

-- The digits that end the encoding: hexadecimal, at least one, and 0.
pub record IsEnd (digits : Bytes) : Type 0 where
  pub hexadecimal : AreHexdigits digits
  pub zero_size : int_of_hex digits ≡ ok 0

some_digits : (digits : Bytes) (n : ℕ) → int_of_hex digits ≡ ok n → 0 < length digits
unfolding int_of_hex
some_digits [] n h = cc
some_digits (b ∷ digits) n h = omega arith

module _ (ending trailer : Bytes) (e : IsEnd ending) where
  loop_step :
      (fuel : ℕ) (before : Bytes) (i : Option ℕ) (chunks : List Bytes) (digits tail : Bytes)
      (r : Round)
      → AreHexdigits digits
      → round_at
          (before ++ (digits ++ (chunk_gap ++ tail)))
          (length before)
          chunks
          (some (length before + length digits))
        ≡ r
      → round_at (before ++ (digits ++ (chunk_gap ++ tail))) (length before) chunks (
          scan (drop (length before) (before ++ (digits ++ (chunk_gap ++ tail)))) (length before) i)
        ≡ r
  loop_step fuel before i chunks digits tail r hex h =
      rw
        (
          drop-append before (digits ++ (chunk_gap ++ tail)),
          scan_digits digits tail (length before) i hex,
        )
        h

  loop-encoded :
      (ps : List Piece) (fuel : ℕ) (before : Bytes) (i : Option ℕ) (chunks : List Bytes)
      → All IsPiece ps
      → length ps < fuel
      → loop fuel (before ++ encoded ending trailer ps) (length before) i chunks
        ≡ some (ok (concat chunks ++ concat (contents_of ps)))
  unfolding loop
  loop-encoded ps zero before i chunks w h = absurd (omega arith)
  loop-encoded [] (suc fuel) before i chunks w h =
      let last =
        round_end before ending trailer chunks (some_digits ending 0 e.zero_size) e.zero_size in
      rw (
        loop_step fuel before i chunks ending trailer (returns (concat chunks)) e.hexadecimal last,
        loop,
        append-nil (concat chunks),
      )
  loop-encoded (p ∷ ps) (suc fuel) before i chunks w h =
      let rest = encoded ending trailer ps in
      let n = length p.contents - 1 in
      let size : suc n ≡ length p.contents = omega (arith, (w.0).non_empty) in
      let read : int_of_hex p.digits ≡ ok (suc n) = (w.0).size ∙ ap ok (sym size) in
      let round =
        round_piece before p.digits p.contents rest chunks n (some_digits p.digits (suc n) read)
          read size in
      let before' = before ++ (p.digits ++ (chunk_gap ++ (p.contents ++ chunk_gap))) in
      let same : before' ++ rest ≡ before ++ encoded ending trailer (p ∷ ps) = simp append_assoc in
      let pos : length before' ≡ length before + length p.digits + 2 + suc n + 2 = omega (
        arith,
        size,
        length-append before (p.digits ++ (chunk_gap ++ (p.contents ++ chunk_gap))),
        length-append p.digits (chunk_gap ++ (p.contents ++ chunk_gap)),
        length-append p.contents chunk_gap,
      ) in
      let later =
        loop-encoded ps fuel before' (some (length before + length p.digits))
          (chunks ++ p.contents ∷ []) w.1 (omega arith) in
      let result : concat (chunks ++ p.contents ∷ []) ++ concat (contents_of ps)
          ≡ concat chunks ++ (p.contents ++ concat (contents_of ps)) =
        ap (λ k. k ++ concat (contents_of ps)) (concat-append_one chunks p.contents)
        ∙ append_assoc (concat chunks) p.contents (concat (contents_of ps)) in
      rw
        (
          loop_step fuel before i chunks p.digits (p.contents ++ (chunk_gap ++ rest)) _
              (w.0).hexadecimal round,
          loop,
        )
        (rw (← pos, ← same) (later ∙ ap (λ k. some (ok k)) result))

  length-encoded : (ps : List Piece) → length ps < suc (length (encoded ending trailer ps))
  length-encoded [] = omega arith
  length-encoded (p ∷ ps) = omega (
    arith,
    length-encoded ps,
    length-append p.digits (chunk_gap ++ (p.contents ++ (chunk_gap ++ encoded ending trailer ps))),
    length-append p.contents (chunk_gap ++ encoded ending trailer ps),
  )

  -- A body in the chunked transfer encoding is decoded to the contents of its chunks, one after
  -- another, whatever spelling the sizes have and whatever follows the chunk of size 0.
  pub dechunk-encoded :
      (ps : List Piece)
      → All IsPiece ps
      → dechunk (encoded ending trailer ps) ≡ some (ok (concat (contents_of ps)))
  unfolding dechunk
  dechunk-encoded ps w = loop-encoded ps _ [] none [] w (length-encoded ps)
