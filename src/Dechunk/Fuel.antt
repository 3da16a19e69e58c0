-- ===== src/Dechunk/Fuel.antt =====
-- The loop of `_dechunk` in vcrmartin/matchers.py ends: every round goes on behind its position,
-- and inside the body.
use vcrpy.Prelude.{
  Bool-cases, Bytes, List, Option, Result, Result-cases, [], ap, arith, dec_lt, drop, eq_iff, err,
  inl, inr, length, nat_eq, none, not, ok, raised, refl, some, suc, take, true, zero, ℕ, ◌++◌, ◌+◌,
  ◌-◌, ◌<◌, ◌==◌, ◌||◌, ◌∷◌, ◌≡◌, ◌≤◌, ℕ_eq, List_eq,
}
use vcrpy.Dechunk.{
  chunk_gap, slice, scan, Round, returns, raises, goes_on, take_chunk, round_at, loop, dechunk,
  int_of_hex,
}

length-drop : {A : Type 0} (n : ℕ) (xs : List A) → length (drop n xs) ≡ length xs - n
length-drop zero xs = omega arith
length-drop (suc n) [] = omega arith
length-drop (suc n) (x ∷ xs) = omega (arith, length-drop n xs)

length-take-le : {A : Type 0} (n : ℕ) (xs : List A) → length (take n xs) ≤ length xs
length-take-le zero xs = omega arith
length-take-le (suc n) [] = omega arith
length-take-le (suc n) (x ∷ xs) = omega (arith, length-take-le n xs)

-- A slice of two bytes lies inside.
slice_inside :
    (n : ℕ) (body : Bytes) → (slice n (n + 2) body == chunk_gap) ≡ true → n + 2 ≤ length body
slice_inside n body h =
    let same = ap length ((eq_iff (slice n (n + 2) body) chunk_gap).0 h) in
    omega (arith, same, length-take-le (n + 2 - n) (drop n body), length-drop n body)

take_chunk_forward :
    (body : Bytes) (i : ℕ) (chunks : List Bytes) (size : Result ℕ) (pos' i' : ℕ) (chunk : Bytes)
    → take_chunk body i chunks size ≡ goes_on pos' i' chunk
    → (i < pos') × (pos' ≤ length body)
unfolding take_chunk
take_chunk_forward body i chunks (err e) pos' i' chunk h = cc
take_chunk_forward body i chunks (ok zero) pos' i' chunk h = cc
take_chunk_forward body i chunks (ok (suc n)) pos' i' chunk h =
    let after_last = i + 2 + suc n in
    elim (Bool-cases (slice after_last (after_last + 2) body == chunk_gap)) [
      | inl gap ↦
          let same : after_last + 2 ≡ pos' = cc (rw gap at h) in
          let room = slice_inside after_last body gap in
          (omega (arith, same), omega (arith, same, room))
      | inr no_gap ↦ (let stopped = rw no_gap at h in cc stopped)
    ]

slice-nil : (pos i : ℕ) (body : Bytes) → i ≤ pos → slice pos i body ≡ []
slice-nil pos i body h = let none_left : i - pos ≡ 0 = omega arith in rw none_left

int_of_hex_forward :
    (body : Bytes) (pos i : ℕ) (n : ℕ) → int_of_hex (slice pos i body) ≡ ok n → pos < i
unfolding int_of_hex
int_of_hex_forward body pos i n h = elim (dec_lt pos i) [
  | yes lt ↦ lt
  | no ge ↦ (let stopped = rw (slice-nil pos i body (omega arith)) at h in cc stopped)
]

round_forward :
    (body : Bytes) (pos : ℕ) (chunks : List Bytes) (i : Option ℕ) (pos' i' : ℕ) (chunk : Bytes)
    → round_at body pos chunks i ≡ goes_on pos' i' chunk
    → (pos < pos') × (pos' ≤ length body)
unfolding round_at
round_forward body pos chunks none pos' i' chunk h = cc
round_forward body pos chunks (some i) pos' i' chunk h =
    elim (Bool-cases (nat_eq i 0 || not (slice i (i + 2) body == chunk_gap))) [
      | inl stops ↦ elim (Bool-cases (nat_eq pos 0)) [
        | inl first ↦ (let stopped = rw (stops, first) at h in cc stopped)
        | inr later ↦ (let stopped = rw (stops, later) at h in cc stopped)
      ]
      | inr reads ↦
          let h' : take_chunk body i chunks (int_of_hex (slice pos i body))
              ≡ goes_on pos' i' chunk =
            rw reads at h in
          elim (Result-cases (int_of_hex (slice pos i body))) [
            | inl (n, read) ↦
                let below = int_of_hex_forward body pos i n read in
                let on =
                  take_chunk_forward body i chunks (int_of_hex (slice pos i body)) pos' i' chunk
                    h' in
                (omega (arith, below, on.0), on.1)
            | inr (e, bad) ↦ (let stopped = rw (bad, take_chunk) at h' in cc stopped)
          ]
    ]

loop-ne-none :
    (fuel : ℕ) (body : Bytes) (pos : ℕ) (i : Option ℕ) (chunks : List Bytes)
    → pos ≤ length body
    → length body < fuel + pos
    → (r : Result Bytes) × (loop fuel body pos i chunks ≡ some r)
unfolding loop
loop-ne-none zero body pos i chunks inside room = absurd (omega arith)
loop-ne-none (suc fuel) body pos i chunks inside room =
    after (round_at body pos chunks (scan (drop pos body) pos i)) refl
      (λ pos' i' chunk h k. loop-ne-none fuel body pos' (some i') (chunks ++ chunk ∷ []) h k)
  where
    after :
        (r : Round)
        → round_at body pos chunks (scan (drop pos body) pos i) ≡ r
        → ((pos' i' : ℕ) (chunk : Bytes)
            → pos' ≤ length body
            → length body < fuel + pos'
            → (r : Result Bytes) × (loop fuel body pos' (some i') (chunks ++ chunk ∷ []) ≡ some r))
        → (r : Result Bytes) × (loop (suc fuel) body pos i chunks ≡ some r)
    after (returns bytes) e ih = (ok bytes, rw (e, loop))
    after (raises x) e ih = (err (raised x), rw (e, loop))
    after (goes_on pos' i' chunk) e ih =
        let on = round_forward body pos chunks (scan (drop pos body) pos i) pos' i' chunk e in
        let (r, later) = ih pos' i' chunk on.1 (omega (arith, on.0)) in (r, rw (e, loop) later)

-- `_dechunk` of any bytes ends: it returns bytes or raises, and the fuel is never used up.
pub dechunk_ends : (body : Bytes) → (r : Result Bytes) × (dechunk body ≡ some r)
unfolding dechunk
dechunk_ends body = loop-ne-none (suc (length body)) body 0 none [] (omega arith) (omega arith)
