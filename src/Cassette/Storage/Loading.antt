-- ===== src/Cassette/Storage/Loading.antt =====
-- What `Cassette.load` of vcrmartin/cassette.py leaves in memory.
use vcrpy.Prelude.{
  Bool, Error, List, Option, Result, [], ap, append-nil, append_assoc, arith, is_some, none, ok,
  ok-injective, ok_of_bind, refl, some, true, zip, ◌++◌, ◌>>=◌, ◌||◌, ◌∙◌, ◌∷◌, ◌≡◌,
}
use vcrpy.RecordMode.{RecordMode_eq}
use vcrpy.Cassette.{Cassette, Settings, new, append}
use vcrpy.Cassette.Storage.{Persister, load_all, load}

module _ {Q P : Type 0} (s : Settings Q P) where
  abbrev pub keep_response : Q → Option P → Option (Q × P)
  keep_response request none = none
  keep_response request (some response) = some (request, response)

  -- What the callbacks make of a recorded pair: nothing, or a pair to store.
  abbrev pub keep_request : Option Q → P → Result (Option (Q × P))
  keep_request none response = ok none
  keep_request (some request) response = do
    response' ← s.before_record_response response
    ok (keep_response request response')

  unfoldable pub keep_pair : Q → P → Result (Option (Q × P))
  keep_pair request response = do
    request' ← s.before_record_request request
    keep_request request' response

  abbrev pub cons_some : Option (Q × P) → List (Q × P) → List (Q × P)
  cons_some none l = l
  cons_some (some x) l = x ∷ l

  -- The recorded pairs, each as the callbacks leave it.
  unfoldable pub keep_pairs : List (Q × P) → Result (List (Q × P))
  keep_pairs [] = ok []
  keep_pairs ((request, response) ∷ rest) = do
    kept ← keep_pair request response
    others ← keep_pairs rest
    ok (cons_some kept others)

module _ {Q P : Type 0} where
  -- `c` after a load of `recorded` of which `kept` were stored.
  abbrev pub loaded : Cassette Q P → List (Q × P) → List (Q × P) → Bool → Cassette Q P
  loaded c kept recorded dirty = record c {
    interactions = c.interactions ++ kept;
    old_interactions = c.old_interactions ++ recorded;
    dirty = dirty;
  }

  append-keep_pair :
      (c : Cassette Q P) (request : Q) (response : P) (o : Option (Q × P))
      → keep_pair c.settings request response ≡ ok o
      → append c request response
        ≡ ok (record c {
          interactions = c.interactions ++ cons_some c.settings o [];
          dirty = is_some o || c.dirty;
        })
  unfolding append keep_pair
  append-keep_pair c request response o h = ground (arith, append-nil c.interactions)

  cons_some-append :
      (s : Settings Q P) (o : Option (Q × P)) (l : List (Q × P))
      → cons_some s o [] ++ l ≡ cons_some s o l
  cons_some-append s none l = refl
  cons_some-append s (some x) l = refl

  load_all-keep_pairs :
      (c : Cassette Q P) (l kept : List (Q × P))
      → keep_pairs c.settings l ≡ ok kept
      → (d : Bool) × (load_all c l ≡ (loaded c kept l d, none))
  unfolding load_all keep_pairs
  load_all-keep_pairs c [] kept h =
      (c.dirty, ground (arith, append-nil c.interactions, append-nil c.old_interactions))
  load_all-keep_pairs c ((q, p) ∷ l) kept h =
      let (o, eo, h1) = ok_of_bind (keep_pair c.settings q p) _ h in
      let (others, ek, h2) = ok_of_bind (keep_pairs c.settings l) _ h1 in
      let c1 = record c {
        interactions = c.interactions ++ cons_some c.settings o [];
        dirty = is_some o || c.dirty;
        old_interactions = c.old_interactions ++ (q, p) ∷ [];
      } in
      let (d, e) = load_all-keep_pairs c1 l others ek in
      let here = cons_some c.settings o [] in
      let stored : (c.interactions ++ here) ++ others ≡ c.interactions ++ kept =
        append_assoc c.interactions here others
        ∙ ap (λ k. c.interactions ++ k) (cons_some-append c.settings o others ∙ ok-injective h2) in
      let old : (c.old_interactions ++ (q, p) ∷ []) ++ l ≡ c.old_interactions ++ (q, p) ∷ l =
        append_assoc c.old_interactions ((q, p) ∷ []) l in
      let joined : ◌≡◌ {A = Cassette Q P × Option Error} (loaded c1 others l d, none)
          (loaded c kept ((q, p) ∷ l) d, none) =
        λ i. (record c { interactions = stored i; old_interactions = old i; dirty = d }, none) in
      (d, rw (append-keep_pair c q p o eo, load_all) (e ∙ joined))

module _ {Q P W : Type 0} (persister : Persister Q P W) (s : Settings Q P) (w : W) where
  -- The cassette after a load of `recorded`, of which the callbacks kept `kept`.
  abbrev pub loaded_from : List (Q × P) → List (Q × P) → Cassette Q P
  loaded_from recorded kept = record (new s) {
    interactions = kept;
    old_interactions = recorded;
    rewound = true;
  }

  -- A recorded cassette is loaded with what the callbacks make of each pair, in its order, and keeps
  -- the recorded pairs as they were beside that. It is rewound, nothing is played, and it is not
  -- dirty although `append` was called.
  pub load_recorded :
      (qs : List Q) (ps : List P) (kept : List (Q × P))
      → persister.load_cassette w ≡ ok (qs, ps)
      → keep_pairs s (zip qs ps) ≡ ok kept
      → load persister s w ≡ ok (loaded_from (zip qs ps) kept)
  unfolding load
  load_recorded qs ps kept e k =
      let (d, whole) = load_all-keep_pairs (new s) (zip qs ps) kept k in rw (e, whole)
