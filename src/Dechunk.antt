-- ===== src/Dechunk.antt =====
-- vcrmartin/matchers.py, the loop of `_dechunk`, on the bytes of a body. Its variable `i` is an
-- option: before the first `for` over a non-empty range it is unbound.
pub mod Fuel
pub mod Decoding
mod Tests
use vcrpy.Prelude.{
  Bool, Bytes, Exception, List, Option, Result, [], concat, drop, err, if◌then◌else◌, leb, length,
  nat_eq, none, not, ok, raised, some, suc, take, unbound_local_error, value_error, zero, ℕ, ◌&&◌,
  ◌*◌, ◌++◌, ◌+◌, ◌-◌, ◌==◌, ◌||◌, ◌∷◌, ℕ_eq, List_eq,
}

abbrev pub chunk_gap : Bytes
chunk_gap = 13 ∷ 10 ∷ []

-- `_HEXDIG_CODE_POINTS`: the code points of `string.hexdigits`.
unfoldable pub is_hexdigit : ℕ → Bool
is_hexdigit b =
    (leb b'0' b && leb b b'9') || (leb b'a' b && leb b b'f') || (leb b'A' b && leb b b'F')

unfoldable pub hex_value : ℕ → ℕ
hex_value b = if leb b b'9' then b - b'0' else if leb b b'F' then b - b'A' + 10 else b - b'a' + 10

unfoldable pub hex_from : ℕ → Bytes → ℕ
unfolding hex_value
hex_from acc [] = acc
hex_from acc (b ∷ digits) = hex_from (acc * 16 + hex_value b) digits

-- int(digits, 16), of hexadecimal digits
unfoldable pub int_of_hex : Bytes → Result ℕ
unfolding hex_from
int_of_hex [] = err (raised value_error)
int_of_hex (b ∷ digits) = ok (hex_from 0 (b ∷ digits))

-- xs[first:last]
abbrev pub slice : ℕ → ℕ → Bytes → Bytes
slice first last xs = take (last - first) (drop first xs)

-- The `for` over the positions from `pos`, where `rest` are the bytes from there: the value of `i`.
unfoldable pub scan : Bytes → ℕ → Option ℕ → Option ℕ
unfolding is_hexdigit
scan [] pos i = i
scan (b ∷ rest) pos i = if is_hexdigit b then scan rest (pos + 1) (some pos) else some pos

-- One round of the `while`: it returns, raises, or goes on at another position with another chunk.
pub data Round : Type 0 where
  returns : Bytes → Round
  raises : Exception → Round
  goes_on : ℕ → ℕ → Bytes → Round

-- After the size was read.
unfoldable pub take_chunk : Bytes → ℕ → List Bytes → Result ℕ → Round
take_chunk body i chunks (err e) = raises value_error
take_chunk body i chunks (ok zero) = returns (concat chunks)
take_chunk body i chunks (ok (suc n)) =
    let first = i + 2 in
    let after_last = first + suc n in
    if slice after_last (after_last + 2) body == chunk_gap
    then goes_on (after_last + 2) i (slice first after_last body)
    else raises value_error

unfoldable pub round_at : Bytes → ℕ → List Bytes → Option ℕ → Round
unfolding int_of_hex take_chunk
round_at body pos chunks none = raises unbound_local_error
round_at body pos chunks (some i) =
    if nat_eq i 0 || not (slice i (i + 2) body == chunk_gap)
    then (if nat_eq pos 0 then returns body else raises value_error)
    else take_chunk body i chunks (int_of_hex (slice pos i body))

-- The `while True`, on fuel.
unfoldable pub loop : ℕ → Bytes → ℕ → Option ℕ → List Bytes → Option (Result Bytes)
unfolding round_at scan
loop zero body pos i chunks = none
loop (suc fuel) body pos i chunks = elim (round_at body pos chunks (scan (drop pos body) pos i)) [
  | returns bytes ↦ some (ok bytes)
  | raises e ↦ some (err (raised e))
  | goes_on pos' i' chunk ↦ loop fuel body pos' (some i') (chunks ++ chunk ∷ [])
]

-- The fuel is one more than the number of bytes: each round but the last goes beyond one of them.
unfoldable pub dechunk : Bytes → Option (Result Bytes)
unfolding loop
dechunk body = loop (suc (length body)) body 0 none []
