-- ===== src/Cassette/PlayCounts.antt =====
-- `collections.Counter` over indices, as vcrmartin/cassette.py uses it for `play_counts`: a missing
-- key counts 0 and is not inserted by a read.
use vcrpy.Prelude.{
  List, [], arith, dec_lt, if◌then◌else◌, length, ltb, refl, subst, suc, sym, zero, ℕ, ◌+◌, ◌<◌,
  ◌==◌, ◌↔◌, ◌∙◌, ◌∷◌, ◌≡◌, ◌≤◌, ℕ_eq,
}

abbrev pub Counter : Type 0
Counter = List (ℕ × ℕ)

-- counter[k]
unfoldable pub count : Counter → ℕ → ℕ
count [] k = 0
count ((j, n) ∷ c) k = if j == k then n else count c k

-- counter[k] += 1
unfoldable pub increment : ℕ → Counter → Counter
increment k [] = (k, 1) ∷ []
increment k ((j, n) ∷ c) = if j == k then (j, n + 1) ∷ c else (j, n) ∷ increment k c

-- sum(counter.values())
unfoldable pub total : Counter → ℕ
total [] = 0
total ((_, n) ∷ c) = n + total c

pub count-increment :
    (k j : ℕ) (c : Counter)
    → count (increment k c) j ≡ (if k == j then count c j + 1 else count c j)
unfolding count increment
count-increment k j [] = ground arith
count-increment k j ((i, n) ∷ c) = ground (arith, count-increment k j c)

pub total-increment : (k : ℕ) (c : Counter) → total (increment k c) ≡ total c + 1
unfolding total increment
total-increment k [] = omega arith
total-increment k ((i, n) ∷ c) = ground (arith, total-increment k c)

pub count-nil : (k : ℕ) → count [] k ≡ 0
unfolding count
count-nil k = refl

pub total-nil : total [] ≡ 0
unfolding total
total-nil = refl

-- Counting the keys below a bound: how many of `0 .. n - 1` have a count above 0.
pub positive_below : ℕ → Counter → ℕ
positive_below zero c = 0
positive_below (suc n) c = (if count c n == 0 then 0 else 1) + positive_below n c

-- The counter of a cassette of `n` interactions: its keys are different indices below `n`, and no
-- key has the count 0.
abbrev pub IsCounter : ℕ → Counter → Type 0
IsCounter n [] = Unit
IsCounter n ((k, m) ∷ c) = (k < n) × (0 < m) × (count c k ≡ 0) × IsCounter n c

pub increment-IsCounter :
    (n k : ℕ) (c : Counter) → k < n → IsCounter n c → IsCounter n (increment k c)
unfolding increment count
increment-IsCounter n k [] h w = (h, omega arith, refl, tt)
increment-IsCounter n k ((j, m) ∷ c) h w =
    ground (arith, increment-IsCounter n k c h, count-increment k j c)

pub IsCounter-mono : (n m : ℕ) (c : Counter) → n ≤ m → IsCounter n c → IsCounter m c
IsCounter-mono n m [] h w = tt
IsCounter-mono n m ((k, v) ∷ c) h w = (omega arith, omega arith, w.2, IsCounter-mono n m c h w.3)

positive_below-cons :
    (n k m : ℕ) (c : Counter)
    → 0 < m
    → count c k ≡ 0
    → positive_below n ((k, m) ∷ c) ≡ positive_below n c + (if ltb k n then 1 else 0)
unfolding positive_below count
positive_below-cons zero k m c h e = ground arith
positive_below-cons (suc n) k m c h e = ground (arith, positive_below-cons n k m c h e)

positive_below-nil : (n : ℕ) → positive_below n [] ≡ 0
unfolding positive_below count
positive_below-nil zero = refl
positive_below-nil (suc n) = ground (arith, positive_below-nil n)

length-eq-positive_below : (n : ℕ) (c : Counter) → IsCounter n c → length c ≡ positive_below n c
length-eq-positive_below n [] w = sym (positive_below-nil n)
length-eq-positive_below n ((k, m) ∷ c) w =
    ground (arith, length-eq-positive_below n c, positive_below-cons n k m c)

positive_below-le : (n : ℕ) (c : Counter) → positive_below n c ≤ n
unfolding positive_below
positive_below-le zero c = omega arith
positive_below-le (suc n) c = ground (arith, positive_below-le n c)

positive_below_full :
    (n : ℕ) (c : Counter) → positive_below n c ≡ n → (i : ℕ) → i < n → 0 < count c i
unfolding positive_below
positive_below_full zero c e i h = elim h [ ]
positive_below_full (suc n) c e i h =
    let below : positive_below n c ≡ n = ground (arith, positive_below-le n c) in
    let last : 0 < count c n = ground (arith, positive_below-le n c) in
    elim (dec_lt i n) [
      | yes lt ↦ positive_below_full n c below i lt
      | no ge ↦ subst (λ j. 0 < count c j) (omega arith) last
    ]

positive_below_all :
    (n : ℕ) (c : Counter) → ((i : ℕ) → i < n → 0 < count c i) → positive_below n c ≡ n
unfolding positive_below
positive_below_all zero c a = refl
positive_below_all (suc n) c a =
    let below = positive_below_all n c (λ i h. a i (omega arith)) in
    ground (arith, below, a n (omega arith))

-- There are as many keys as indices exactly when every index has a count.
pub length_iff_all_positive :
    (n : ℕ) (c : Counter) → IsCounter n c → (length c ≡ n) ↔ ((i : ℕ) → i < n → 0 < count c i)
length_iff_all_positive n c w = (
  λ e. positive_below_full n c (sym (length-eq-positive_below n c w) ∙ e),
  λ a. length-eq-positive_below n c w ∙ positive_below_all n c a,
)

pub count-beyond : (n k : ℕ) (c : Counter) → n ≤ k → IsCounter n c → count c k ≡ 0
unfolding count
count-beyond n k [] h w = refl
count-beyond n k ((j, m) ∷ c) h w = ground (arith, count-beyond n k c h)

-- Where no count is above 1, their sum is at most the bound of the keys.
total-le-length :
    (n : ℕ) (c : Counter) → IsCounter n c → ((i : ℕ) → count c i ≤ 1) → total c ≤ length c
unfolding total count
total-le-length n [] w h = omega arith
total-le-length n ((k, m) ∷ c) w h =
    let tail = total-le-length n c w.3 (λ i. ground (arith, h i, w.2)) in ground (arith, h k)

pub total-le : (n : ℕ) (c : Counter) → IsCounter n c → ((i : ℕ) → count c i ≤ 1) → total c ≤ n
total-le n c w h =
    omega (arith, total-le-length n c w h, length-eq-positive_below n c w, positive_below-le n c)
