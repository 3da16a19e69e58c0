-- ===== src/Context.antt =====
-- vcrmartin/cassette.py, `CassetteContextDecorator`, and `current_cassette` of vcrmartin/constants.py.
-- Cassettes are shared, by `current_cassette` and by the decorator, so that they stand in a store and
-- are named by their places in it. A step that raises leaves what it had changed.
pub mod Leaving
mod Tests
use vcrpy.Prelude.{
  Bool, Error, List, Option, Result, Str, [], attribute_error, err, false, get_elem?, if◌then◌else◌,
  length, none, not, ok, raised, runtime_error, some, suc, true, zero, ℕ, ◌++◌, ◌>>=◌, ◌||◌, ◌∷◌,
}
use vcrpy.Cassette.{Cassette, Settings}
use vcrpy.Cassette.Storage.{Persister, load, save}

-- What `__enter__` takes from `_args_getter`: the arguments of `Cassette.load`, and the transformer of
-- its path. `__exit__` calls `_args_getter` again, and takes `record_on_exception` from it.
pub record Arguments (Q P : Type 0) : Type 0 where
  pub settings : Settings Q P
  pub path : Str
  pub path_transformer : Option (Str → Result Str)

-- The cassettes with their paths, what `current_cassette` holds, and the storage.
pub record Context (Q P W : Type 0) : Type 0 where
  pub cassettes : List (Str × Cassette Q P)
  pub current : Option ℕ
  pub world : W

-- A token of `current_cassette.set`: the value before, and whether `reset` has used it.
pub record Token : Type 0 where
  pub before : Option ℕ
  pub used : Bool

-- `__cassette` and `__token`
pub record Decorator : Type 0 where
  pub cassette : Option ℕ
  pub token : Option Token

abbrev pub fresh : Decorator
fresh = record { cassette = none; token = none }

unfoldable pub put_at {ℓ} : {A : Type ℓ} → ℕ → A → List A → List A
put_at i a [] = []
put_at zero a (b ∷ l) = a ∷ l
put_at (suc i) a (b ∷ l) = b ∷ put_at i a l

abbrev pub transformed_path : Option (Str → Result Str) → Str → Result Str
transformed_path none path = ok path
transformed_path (some f) path = f path

-- if self.__token: current_cassette.reset(self.__token)
unfoldable pub reset :
    {Q P W : Type 0} → Decorator → Context Q P W → Option Error × Decorator × Context Q P W
reset d s = elim d.token [
  | none ↦ (none, d, s)
  | some t ↦ if t.used then (some (raised runtime_error), d, s) else (
    none,
    record d { token = some (record t { used = true }) },
    record s { current = t.before },
  )
]

abbrev pub leave_saved :
    {Q P W : Type 0}
    → Decorator
    → Option Error × Context Q P W
    → Option Error × Decorator × Context Q P W
leave_saved d (some e, s) = (some e, d, s)
leave_saved d (none, s) = reset (record d { cassette = none }) s

abbrev pub is_err : {A : Type 0} → Result A → Bool
is_err (err e) = true
is_err (ok a) = false

-- What the `with` statement ends with: an exception of `__exit__` takes the place of the outcome.
abbrev pub finish_with :
    {A Q P W : Type 0}
    → Result A
    → Option Error × Decorator × Context Q P W
    → Result A × Context Q P W
finish_with outcome (none, d, s) = (outcome, s)
finish_with outcome (some e, d, s) = (err e, s)

module _ {Q P W : Type 0} (persister : Str → Persister Q P W) where
  -- `__enter__`, which changes nothing where it raises.
  unfoldable pub enter : Arguments Q P → Context Q P W → Result (ℕ × Decorator × Context Q P W)
  unfolding load
  enter a s = do
    path ← transformed_path a.path_transformer a.path
    cassette ← load (persister path) a.settings s.world
    let place = length s.cassettes in
        ok (
          place,
          record {
            cassette = some place;
            token = some (record { before = s.current; used = false });
          },
          record s { cassettes = s.cassettes ++ (path, cassette) ∷ []; current = some place },
        )

  abbrev pub saved :
      ℕ → Context Q P W → Str → Result (Cassette Q P × W) → Option Error × Context Q P W
  saved place s path (err e) = (some e, s)
  saved place s path (ok (c, w)) =
      (none, record s { cassettes = put_at place (path, c) s.cassettes; world = w })

  abbrev pub save_found :
      ℕ → Context Q P W → Option (Str × Cassette Q P) → Option Error × Context Q P W
  save_found place s none = (some (raised attribute_error), s)
  save_found place s (some (path, c)) = saved place s path (save (persister path) c s.world false)

  -- self.__cassette._save()
  unfoldable pub save_own : Option ℕ → Context Q P W → Option Error × Context Q P W
  unfolding save put_at
  save_own none s = (some (raised attribute_error), s)
  save_own (some place) s = save_found place s (get_elem? s.cassettes place)

  -- `__exit__`; the first argument is what its call of `_args_getter` comes to.
  unfoldable pub exit :
      Result Bool → Decorator → Bool → Context Q P W → Option Error × Decorator × Context Q P W
  unfolding save_own reset
  exit (err e) d exception_was_raised s = (some e, d, s)
  exit (ok record_on_exception) d exception_was_raised s =
      if record_on_exception || not exception_was_raised
      then leave_saved d (save_own d.cassette s)
      else reset d s

  abbrev pub run_inside :
      {A : Type 0} → Result Bool → Decorator → Result A × Context Q P W → Result A × Context Q P W
  run_inside again d (outcome, s) = finish_with outcome (exit again d (is_err outcome) s)

  -- `_handle_function`, on a decorator that `__call__` has just made.
  unfoldable pub handle_function :
      {A : Type 0}
      → Arguments Q P
      → Result Bool
      → (ℕ → Context Q P W → Result A × Context Q P W)
      → Context Q P W
      → Result A × Context Q P W
  unfolding enter exit
  handle_function a again fn s = elim (enter a s) [
    | err e ↦ (err e, s)
    | ok (place, d, s1) ↦ run_inside again d (fn place s1)
  ]
