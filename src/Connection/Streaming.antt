-- ===== src/Connection/Streaming.antt =====
-- vcrmartin/stubs/__init__.py: `stream` of `VCRHTTPResponse` hands out the whole content.
use vcrpy.Prelude.{
  All, Bytes, List, [], ap, arith, concat, drop, ended, length, length-append, ok, refl, subst, suc,
  sym, take, zero, ℕ, ◌++◌, ◌+◌, ◌<◌, ◌∙◌, ◌∷◌, ◌≡◌, ◌≤◌,
}
use vcrpy.Connection.Responses.{VcrResponse, read}
use vcrpy.Connection.Reading.{stream}

module _ {A : Type 0} where
  drop-nil : (n : ℕ) → drop {A = A} n [] ≡ []
  drop-nil zero = refl
  drop-nil (suc n) = refl

  drop_add : (m n : ℕ) (l : List A) → drop (m + n) l ≡ drop n (drop m l)
  drop_add zero n l = let same : 0 + n ≡ n = omega arith in ap (λ k. drop k l) same
  drop_add (suc m) n [] = drop-nil (suc m + n) ∙ sym (drop-nil n)
  drop_add (suc m) n (x ∷ l) =
      let same : suc m + n ≡ suc (m + n) = omega arith in
      ap (λ k. drop k (x ∷ l)) same ∙ drop_add m n l

  drop-length-take : (n : ℕ) (l : List A) → drop (length (take n l)) l ≡ drop n l
  drop-length-take zero l = refl
  drop-length-take (suc n) [] = refl
  drop-length-take (suc n) (x ∷ l) = drop-length-take n l

  take-append-drop : (n : ℕ) (l : List A) → take n l ++ drop n l ≡ l
  take-append-drop zero l = refl
  take-append-drop (suc n) [] = refl
  take-append-drop (suc n) (x ∷ l) = ap (λ k. x ∷ k) (take-append-drop n l)

  length-take-le : (n : ℕ) (l : List A) → length (take n l) ≤ n
  length-take-le zero l = omega arith
  length-take-le (suc n) [] = omega arith
  length-take-le (suc n) (x ∷ l) = omega (arith, length-take-le n l)

  take-eq_nil : (n : ℕ) (l : List A) → 0 < n → take n l ≡ [] → l ≡ []
  take-eq_nil zero l h e = absurd (omega arith)
  take-eq_nil (suc n) [] h e = refl
  take-eq_nil (suc n) (x ∷ l) h e = cc e

-- The pieces of the content that is left, `l`.
abbrev Delivers : ℕ → ℕ → VcrResponse → Bytes → Type 0
Delivers n amt r l =
    (pieces : List Bytes) × (r' : VcrResponse) × (stream n amt r
      ≡ ended (ok (pieces ++ [] ∷ [], r')))
    × (concat pieces ≡ l)
    × All (λ (b : Bytes). (0 < length b) × (length b ≤ amt)) pieces

rest_after :
    (amt : ℕ) (r : VcrResponse) (l part : Bytes)
    → drop r.position r.contents ≡ l
    → take amt l ≡ part
    → drop (r.position + length part) r.contents ≡ drop amt l
rest_after amt r l part e t =
    drop_add r.position (length part) r.contents
    ∙ ap (λ k. drop (length part) k) e
    ∙ ap (λ (k : Bytes). drop (length k) l) (sym t)
    ∙ drop-length-take amt l

Delivers-from :
    (n amt : ℕ) (r : VcrResponse) (l part : Bytes)
    → 0 < amt
    → drop r.position r.contents ≡ l
    → take amt l ≡ part
    → length l < n
    → Delivers n amt r l
unfolding stream read
Delivers-from zero amt r l part h e t enough = absurd (omega arith)
Delivers-from (suc n) amt r l [] h e t enough =
    ([], record r { position = r.position + 0 }, rw (stream, e, t), sym (take-eq_nil amt l h t), tt)
Delivers-from (suc n) amt r l (b ∷ part) h e t enough =
    let r1 = record r { position = r.position + length (b ∷ part) } in
    let joined : (b ∷ part) ++ drop amt l ≡ l =
      ap (λ k. k ++ drop amt l) (sym t) ∙ take-append-drop amt l in
    let measured : length l ≡ length (b ∷ part) + length (drop amt l) =
      ap (λ (k : Bytes). length k) (sym joined) ∙ length-append (b ∷ part) (drop amt l) in
    let (pieces, r', run, whole, sizes) =
      Delivers-from n amt r1 (drop amt l) (take amt (drop amt l)) h
        (rest_after amt r l (b ∷ part) e t) refl (omega (arith, measured)) in
    (
      (b ∷ part) ∷ pieces,
      r',
      rw (stream, e, t) (rw run refl),
      ap (λ k. (b ∷ part) ++ k) whole ∙ joined,
      ((omega arith, subst (λ (k : Bytes). length k ≤ amt) t (length-take-le amt l)), sizes),
    )

-- For an `amt` above 0, `stream` ends within one round more than there are bytes left. Its pieces are at most `amt` long
-- and not empty, but for one more at the end, and joined they are what was left of the content.
pub stream_delivers :
    (n amt : ℕ) (r : VcrResponse)
    → 0 < amt
    → length (drop r.position r.contents) < n
    → (pieces : List Bytes) × (r' : VcrResponse) × (stream n amt r
        ≡ ended (ok (pieces ++ [] ∷ [], r')))
      × (concat pieces ≡ drop r.position r.contents)
      × All (λ (b : Bytes). (0 < length b) × (length b ≤ amt)) pieces
stream_delivers n amt r h enough =
    Delivers-from n amt r (drop r.position r.contents) (take amt (drop r.position r.contents)) h
      refl refl enough
