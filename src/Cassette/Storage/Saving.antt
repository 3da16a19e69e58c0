-- ===== src/Cassette/Storage/Saving.antt =====
-- What `_save` of vcrmartin/cassette.py writes, and when.
use vcrpy.Prelude.{
  List, drop, false, firsts, ok, refl, seconds, subst, sym, true, zip, zip-firsts-seconds, ◌∙◌, ◌≡◌,
}
use vcrpy.Cassette.{Cassette, Settings, play_response}
use vcrpy.Cassette.Playback.{play_response-Outcome}
use vcrpy.Cassette.Storage.{Persister, has_unused, save, load}
use vcrpy.Cassette.Storage.Loading.{keep_pairs, loaded_from, load_recorded}

-- The cassettes that a row of calls of `play_response` leads to.
pub data Session {Q P : Type 0} (c : Cassette Q P) : Cassette Q P → Type 0 where
  start : Session c c
  play :
      {c1 c2 : Cassette Q P} (request : Q) (p : P)
      → Session c c1
      → play_response c1 request ≡ ok (p, c2)
      → Session c c2

module _ {Q P : Type 0} where
  -- What a row of plays leaves as it was.
  pub record SameRecording (c c' : Cassette Q P) : Type 0 where
    pub settings : c'.settings ≡ c.settings
    pub interactions : c'.interactions ≡ c.interactions
    pub old_interactions : c'.old_interactions ≡ c.old_interactions
    pub dirty : c'.dirty ≡ c.dirty
    pub rewound : c'.rewound ≡ c.rewound

  play_response-SameRecording :
      (c : Cassette Q P) (request : Q) {p : P} {c' : Cassette Q P}
      → play_response c request ≡ ok (p, c')
      → SameRecording c c'
  play_response-SameRecording c request h =
      let (_, _, outcome) = play_response-Outcome c request h in
      let (i, _, e) = outcome in
      subst (SameRecording c) (sym e) (record {
        settings = refl;
        interactions = refl;
        old_interactions = refl;
        dirty = refl;
        rewound = refl;
      })

  -- A row of plays changes neither the settings nor what is recorded, nor the flags.
  pub Session-SameRecording : {c c' : Cassette Q P} → Session c c' → SameRecording c c'
  Session-SameRecording start = record {
    settings = refl;
    interactions = refl;
    old_interactions = refl;
    dirty = refl;
    rewound = refl;
  }
  Session-SameRecording (play {c1} request p before h) =
      let a = Session-SameRecording before in
      let b = play_response-SameRecording c1 request h in
      record {
        settings = b.settings ∙ a.settings;
        interactions = b.interactions ∙ a.interactions;
        old_interactions = b.old_interactions ∙ a.old_interactions;
        dirty = b.dirty ∙ a.dirty;
        rewound = b.rewound ∙ a.rewound;
      }

module _ {Q P W : Type 0} (persister : Persister Q P W) where
  save_clean :
      (c : Cassette Q P) (w : W)
      → c.dirty ≡ false
      → has_unused c ≡ false
      → save persister c w false ≡ ok (c, w)
  unfolding save
  save_clean c w d u = rw (u, d)

  -- Loading a recorded cassette, playing from it and saving it at the end never writes to the
  -- storage, unless the setting `drop_unused_requests` is on.
  pub playback_never_writes :
      (s : Settings Q P) (w : W) (qs : List Q) (ps : List P) (kept : List (Q × P))
      {c : Cassette Q P}
      → persister.load_cassette w ≡ ok (qs, ps)
      → keep_pairs s (zip qs ps) ≡ ok kept
      → s.drop_unused_requests ≡ false
      → Session (loaded_from persister s w (zip qs ps) kept) c
      → (load persister s w ≡ ok (loaded_from persister s w (zip qs ps) kept))
        × (save persister c w false ≡ ok (c, w))
  playback_never_writes s w qs ps kept {c} e k drop session =
      let same = Session-SameRecording session in
      (
        load_recorded persister s w qs ps kept e k,
        save_clean c w same.dirty (rw (same.settings, drop)),
      )

  -- What a dirty cassette with no unused requests to drop saves, a new cassette of the same settings
  -- loads: the same interactions in the same order, provided that the storage gives back what it
  -- was given and that the callbacks leave what they stored as it is.
  pub save_then_load :
      (c : Cassette Q P) (w w' : W)
      → persister.save_cassette w (firsts c.interactions, seconds c.interactions) ≡ ok w'
      → persister.load_cassette w' ≡ ok (firsts c.interactions, seconds c.interactions)
      → keep_pairs c.settings c.interactions ≡ ok c.interactions
      → c.dirty ≡ true
      → has_unused c ≡ false
      → (save persister c w false ≡ ok (record c { dirty = false }, w'))
        × (load persister c.settings w'
            ≡ ok (loaded_from persister c.settings w' c.interactions c.interactions))
  unfolding save
  save_then_load c w w' es el stable dirty unused =
      let whole = zip-firsts-seconds c.interactions in
      let stable' : keep_pairs c.settings (zip (firsts c.interactions) (seconds c.interactions))
          ≡ ok c.interactions =
        rw whole stable in
      let loads =
        load_recorded persister c.settings w' (firsts c.interactions) (seconds c.interactions)
          c.interactions el stable' in
      (
        rw (unused, dirty, es),
        subst
            (λ l.
              load persister c.settings w'
              ≡ ok (loaded_from persister c.settings w' l c.interactions))
            whole loads,
      )
