-- ===== src/Cassette/Reachable.antt =====
-- The cassettes of vcrmartin/cassette.py that a program can come to: one is loaded, and its methods
-- are called, in any order and with any arguments.
use vcrpy.Prelude.{
  Bool, Bool-cases, Error, List, Option, Result, Result-cases, [], ap, arith, err, false, inl, inr,
  length, none, ok, ok-injective, ok_of_bind, some, subst, true, zip, ◌++◌, ◌||◌, ◌∷◌, ◌≡◌, ◌≤◌,
  ◌⊎◌,
}
use vcrpy.Cassette.Counting.{
  IsConsistent, append-IsConsistent, play_response-IsConsistent, rewind-IsConsistent,
  new-IsConsistent, play_count-le,
}
use vcrpy.Cassette.Storage.{
  Persister, load, save, finish_load, load_all, load_outcome, write, as_dict,
  build_used_interactions_dict, has_unused,
}
use vcrpy.Cassette.{Cassette, Settings, append, play_response, rewind, new, play_count}

-- `loads` is `Cassette.load`, from whatever the storage holds; the others are steps that return.
pub data Reachable {Q P W : Type 0} (persister : Persister Q P W) (s : Settings Q P)
    : Cassette Q P → Type 0 where
  loads : (w : W) {c : Cassette Q P} → load persister s w ≡ ok c → Reachable persister s c
  appends :
      {c c' : Cassette Q P} (q : Q) (p : P)
      → Reachable persister s c
      → append c q p ≡ ok c'
      → Reachable persister s c'
  plays :
      {c c' : Cassette Q P} (q : Q) (p : P)
      → Reachable persister s c
      → play_response c q ≡ ok (p, c')
      → Reachable persister s c'
  rewinds : {c : Cassette Q P} → Reachable persister s c → Reachable persister s (rewind c)
  saves :
      {c c' : Cassette Q P} (w w' : W) (force : Bool)
      → Reachable persister s c
      → save persister c w force ≡ ok (c', w')
      → Reachable persister s c'

module _ {Q P : Type 0} where
  load_all-IsConsistent :
      (c : Cassette Q P) (recorded : List (Q × P))
      → IsConsistent c
      → IsConsistent (load_all c recorded).0
  unfolding load_all
  load_all-IsConsistent c [] w = w
  load_all-IsConsistent c ((q, p) ∷ recorded) w = elim (Result-cases (append c q p)) [
    | inl (c1, e) ↦
        rw (load_all, e)
          (load_all-IsConsistent
            (record c1 { old_interactions = c1.old_interactions ++ (q, p) ∷ [] }) recorded
            (moved c1 (append-IsConsistent c q p w e)))
    | inr (x, e) ↦ rw (load_all, e) w
  ]
    where
      moved :
          (c1 : Cassette Q P)
          → IsConsistent c1
          → IsConsistent (record c1 { old_interactions = c1.old_interactions ++ (q, p) ∷ [] })
      moved c1 v = record { keys = v.keys; once = v.once }

  finish_load_cases :
      (c : Cassette Q P) (o : Option Error) {c' : Cassette Q P}
      → finish_load (c, o) ≡ ok c'
      → (c ≡ c') ⊎ (record c { dirty = false; rewound = true } ≡ c')
  unfolding finish_load
  finish_load_cases c none h = inr (ok-injective h)
  finish_load_cases c (some e) h = ground arith

  load_outcome-IsConsistent :
      (c : Cassette Q P) (found : Result (List Q × List P))
      → IsConsistent c
      → IsConsistent (load_outcome c found).0
  load_outcome-IsConsistent c (ok (qs, ps)) w = load_all-IsConsistent c (zip qs ps) w
  load_outcome-IsConsistent c (err e) w = w

module _ {Q P W : Type 0} (persister : Persister Q P W) (s : Settings Q P) where
  load-IsConsistent : (w : W) {c : Cassette Q P} → load persister s w ≡ ok c → IsConsistent c
  unfolding load
  load-IsConsistent w h =
      let found = load_outcome (new s) (persister.load_cassette w) in
      let v = load_outcome-IsConsistent (new s) (persister.load_cassette w) (new-IsConsistent s) in
      elim (finish_load_cases found.0 found.1 h) [
        | inl same ↦ subst IsConsistent same v
        | inr same ↦ subst IsConsistent same (record { keys = v.keys; once = v.once })
      ]

  write_cases :
      (c : Cassette Q P) (w w' : W) (force : Bool) (d : List Q × List P) {c' : Cassette Q P}
      → write persister c w force d ≡ ok (c', w')
      → (c ≡ c') ⊎ (record c { dirty = false } ≡ c')
  unfolding write
  write_cases c w w' force d h = elim (Bool-cases (force || c.dirty)) [
    | inl writes ↦
        let (w1, _, h1) = ok_of_bind (persister.save_cassette w d) _ (rw writes at h) in
        inr (ap (λ (x : Cassette Q P × W). x.0) (ok-injective h1))
    | inr skips ↦ inl (ap (λ (x : Cassette Q P × W). x.0) (ok-injective (rw skips at h)))
  ]

  save_cases :
      (c : Cassette Q P) (w w' : W) (force : Bool) {c' : Cassette Q P}
      → save persister c w force ≡ ok (c', w')
      → (c ≡ c') ⊎ (record c { dirty = false } ≡ c')
  unfolding save
  save_cases c w w' force h = elim (Bool-cases (has_unused c)) [
    | inl unused ↦
        let (d, _, h1) = ok_of_bind (build_used_interactions_dict c) _ (rw unused at h) in
        write_cases c w w' true d h1
    | inr all_used ↦ write_cases c w w' force (as_dict c) (rw all_used at h)
  ]

  save-IsConsistent :
      (c : Cassette Q P) (w w' : W) (force : Bool) {c' : Cassette Q P}
      → IsConsistent c
      → save persister c w force ≡ ok (c', w')
      → IsConsistent c'
  save-IsConsistent c w w' force v h = elim (save_cases c w w' force h) [
    | inl same ↦ subst IsConsistent same v
    | inr same ↦ subst IsConsistent same (record { keys = v.keys; once = v.once })
  ]

  -- In every cassette that a program can come to, the play counts belong to stored interactions, and
  -- without playback repeats none is above 1.
  pub Reachable-IsConsistent : {c : Cassette Q P} → Reachable persister s c → IsConsistent c
  Reachable-IsConsistent (loads w h) = load-IsConsistent w h
  Reachable-IsConsistent (appends {c} q p r h) =
      append-IsConsistent c q p (Reachable-IsConsistent r) h
  Reachable-IsConsistent (plays {c} q p r h) =
      play_response-IsConsistent c q (Reachable-IsConsistent r) h
  Reachable-IsConsistent (rewinds {c} r) = rewind-IsConsistent c (Reachable-IsConsistent r)
  Reachable-IsConsistent (saves {c} w w' force r h) =
      save-IsConsistent c w w' force (Reachable-IsConsistent r) h

  -- Without playback repeats, `play_count` of such a cassette is at most the number of its
  -- interactions.
  pub play_count_bounded :
      {c : Cassette Q P}
      → Reachable persister s c
      → c.allow_playback_repeats ≡ false
      → play_count c ≤ length c.interactions
  play_count_bounded {c} r repeats = play_count-le c repeats (Reachable-IsConsistent r)
