-- ===== src/Cassette/Counting.antt =====
-- The play counts of vcrmartin/cassette.py: the invariant that every method keeps, and what
-- `play_count` and `all_played` say.
use vcrpy.Prelude.{
  [], arith, eq_iff, false, get_elem?-lt, inl, inr, length, length-append, ok, refl, subst, sym,
  true, ℕ, ◌++◌, ◌+◌, ◌<◌, ◌↔◌, ◌∷◌, ◌≡◌, ◌≤◌, ℕ_eq,
}
use vcrpy.Cassette.PlayCounts.{
  count, count-increment, count-nil, IsCounter, increment-IsCounter, IsCounter-mono,
  length_iff_all_positive, total-le, total-increment,
}
use vcrpy.Cassette.Appending.{with_interaction, append_cases}
use vcrpy.Cassette.Playback.{play_response-Outcome}
use vcrpy.Cassette.{Cassette, Settings, new, all_played, append, play_response, rewind, play_count}

module _ {Q P : Type 0} where
  -- The counts belong to stored interactions, and without repeats none is above 1.
  pub record IsConsistent (c : Cassette Q P) : Type 0 where
    pub keys : IsCounter (length c.interactions) c.play_counts
    pub once : c.allow_playback_repeats ≡ false → (i : ℕ) → count c.play_counts i ≤ 1

  pub new-IsConsistent : (s : Settings Q P) → IsConsistent (new s)
  new-IsConsistent s = record { keys = tt; once = λ _ i. omega (arith, count-nil i) }

  with_interaction-IsConsistent :
      (c : Cassette Q P) (q : Q) (p : P) → IsConsistent c → IsConsistent (with_interaction c q p)
  with_interaction-IsConsistent c q p w = record {
    keys =
        IsCounter-mono (length c.interactions) (length (c.interactions ++ (q, p) ∷ []))
          c.play_counts (omega (arith, length-append c.interactions ((q, p) ∷ []))) w.keys;
    once = w.once;
  }

  -- A new cassette is consistent, and `append` keeps that.
  pub append-IsConsistent :
      (c : Cassette Q P) (request : Q) (response : P) {c' : Cassette Q P}
      → IsConsistent c
      → append c request response ≡ ok c'
      → IsConsistent c'
  append-IsConsistent c request response w h = elim (append_cases c request response h) [
    | inl same ↦ subst IsConsistent (sym same) w
    | inr (q, p, _, e) ↦ subst IsConsistent (sym e) (with_interaction-IsConsistent c q p w)
  ]

  pub play_response-IsConsistent :
      (c : Cassette Q P) (request : Q) {p : P} {c' : Cassette Q P}
      → IsConsistent c
      → play_response c request ≡ ok (p, c')
      → IsConsistent c'
  play_response-IsConsistent c request {p} {c'} w h =
      let (_, _, outcome) = play_response-Outcome c request h in
      let (i, f, e) = outcome in
      subst IsConsistent (sym e) (record {
        keys =
            increment-IsCounter (length c.interactions) i c.play_counts
              (omega (arith, f.index, get_elem?-lt c.interactions f.place (f.stored, p) f.found))
              w.keys;
        once = λ repeats j.
            ground (arith, count-increment i j c.play_counts, f.available, w.once repeats j);
      })

  pub rewind-IsConsistent : (c : Cassette Q P) → IsConsistent c → IsConsistent (rewind c)
  unfolding rewind
  rewind-IsConsistent c w = record { keys = tt; once = λ _ i. omega (arith, count-nil i) }

  -- `all_played` is true exactly when every stored interaction has been played.
  all_played_iff :
      (c : Cassette Q P)
      → IsConsistent c
      → (all_played c ≡ true) ↔ ((i : ℕ) → i < length c.interactions → 0 < count c.play_counts i)
  unfolding all_played
  all_played_iff c w =
      let laws = length_iff_all_positive (length c.interactions) c.play_counts w.keys in
      let test = eq_iff (length c.play_counts) (length c.interactions) in
      (λ h. laws.0 (test.0 h), λ a. test.1 (laws.1 a))

  -- Without playback repeats no more is played than there is.
  pub play_count-le :
      (c : Cassette Q P)
      → c.allow_playback_repeats ≡ false
      → IsConsistent c
      → play_count c ≤ length c.interactions
  unfolding play_count
  play_count-le c repeats w = total-le (length c.interactions) c.play_counts w.keys (w.once repeats)

  -- What a play counts, and what it leaves.
  abbrev pub Counted : Cassette Q P → Cassette Q P → Type 0
  Counted c c' =
      (play_count c' ≡ play_count c + 1)
      × (c'.interactions ≡ c.interactions)
      × (c'.allow_playback_repeats ≡ c.allow_playback_repeats)

  pub play_response-Counted :
      (c : Cassette Q P) (request : Q) {p : P} {c' : Cassette Q P}
      → play_response c request ≡ ok (p, c')
      → Counted c c'
  unfolding play_count
  play_response-Counted c request h =
      let (_, _, outcome) = play_response-Outcome c request h in
      let (i, _, e) = outcome in
      subst (Counted c) (sym e) (total-increment i c.play_counts, refl, refl)
