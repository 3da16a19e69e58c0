-- ===== src/Cassette/Storage.antt =====
-- vcrmartin/cassette.py, `_load`, `_save` and what they build. The persister is an interface over a
-- type `W` of states of the storage: the file system for persisters/filesystem.py, or whatever
-- another registered persister writes to. The path and the serializer are fixed in it.
pub mod Loading
pub mod Saving
use vcrpy.Prelude.{
  Bool, Error, List, Option, Result, [], cassette_decode, cassette_not_found, err, false, firsts,
  if◌then◌else◌, length, ltb, none, ok, raised, seconds, some, true, zip, ◌&&◌, ◌++◌, ◌>>=◌, ◌||◌,
  ◌∷◌, ℕ_eq,
}
use vcrpy.Matching.{Matcher, requests_match}
use vcrpy.Cassette.{Cassette, Settings, new, append, requests, responses}

pub record Persister (Q P W : Type 0) : Type 0 where
  pub load_cassette : W → Result (List Q × List P)
  pub save_cassette : W → List Q × List P → Result W

module _ {Q P : Type 0} where
  -- all(not requests_match(request, old_request, match_on) for old_request, _ in old)
  unfoldable pub none_matches : List (Matcher Q) → Q → List (Q × P) → Result Bool
  none_matches match_on request [] = ok true
  none_matches match_on request ((old_request, _) ∷ rest) = do
    match ← requests_match (some request) old_request match_on
    elim match [ true ↦ ok false | false ↦ none_matches match_on request rest ]

  unfoldable pub new_from : List (Matcher Q) → List (Q × P) → List (Q × P) → Result (List (Q × P))
  new_from match_on old [] = ok []
  new_from match_on old ((request, response) ∷ rest) = do
    is_new ← none_matches match_on request old
    others ← new_from match_on old rest
    ok (if is_new then (request, response) ∷ others else others)

  -- `_new_interactions`
  unfoldable pub new_interactions : Cassette Q P → Result (List (Q × P))
  unfolding new_from none_matches
  new_interactions c = new_from c.match_on c.old_interactions c.interactions

  -- `_as_dict`: the two lists of the dictionary.
  unfoldable pub as_dict : Cassette Q P → List Q × List P
  unfolding requests responses
  as_dict c = (requests c, responses c)

  -- `_build_used_interactions_dict`
  unfoldable pub build_used_interactions_dict : Cassette Q P → Result (List Q × List P)
  unfolding new_interactions
  build_used_interactions_dict c = do
    fresh ← new_interactions c
    ok (firsts (c.played_interactions ++ fresh), seconds (c.played_interactions ++ fresh))

  -- self.drop_unused_requests and len(self._played_interactions) < len(self._old_interactions)
  abbrev pub has_unused : Cassette Q P → Bool
  has_unused c =
      c.drop_unused_requests && ltb (length c.played_interactions) (length c.old_interactions)

module _ {Q P W : Type 0} (persister : Persister Q P W) where
  unfoldable pub write : Cassette Q P → W → Bool → List Q × List P → Result (Cassette Q P × W)
  write c w force cassette_dict =
      if force || c.dirty
      then (do w' ← persister.save_cassette w cassette_dict; ok (record c { dirty = false }, w'))
      else ok (c, w)

  -- `_save`
  unfoldable pub save : Cassette Q P → W → Bool → Result (Cassette Q P × W)
  unfolding write as_dict build_used_interactions_dict
  save c w force =
      if has_unused c
      then (do cassette_dict ← build_used_interactions_dict c; write c w true cassette_dict)
      else write c w force (as_dict c)

module _ {Q P : Type 0} where
  -- The loop of `_load`. An exception of `append` leaves it with the state that it found.
  unfoldable pub load_all : Cassette Q P → List (Q × P) → Cassette Q P × Option Error
  load_all c [] = (c, none)
  load_all c ((request, response) ∷ rest) = elim (append c request response) [
    | ok c1 ↦
        load_all (record c1 { old_interactions = c1.old_interactions ++ (request, response) ∷ [] })
          rest
    | err e ↦ (c, some e)
  ]

  -- The `try` of `_load`: its last lines, and `except (CassetteDecodeError, CassetteNotFoundError)`.
  unfoldable pub finish_load : Cassette Q P × Option Error → Result (Cassette Q P)
  finish_load (c, none) = ok (record c { dirty = false; rewound = true })
  finish_load (c, some (raised cassette_decode)) = ok c
  finish_load (c, some (raised cassette_not_found)) = ok c
  finish_load (c, some e) = err e

  abbrev pub load_outcome : Cassette Q P → Result (List Q × List P) → Cassette Q P × Option Error
  load_outcome c (ok (requests, responses)) = load_all c (zip requests responses)
  load_outcome c (err e) = (c, some e)

module _ {Q P W : Type 0} (persister : Persister Q P W) where
  -- `Cassette.load`: `__init__` and `_load`.
  unfoldable pub load : Settings Q P → W → Result (Cassette Q P)
  unfolding load_all finish_load
  load settings w = finish_load (load_outcome (new settings) (persister.load_cassette w))
