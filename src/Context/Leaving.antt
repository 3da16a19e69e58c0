-- ===== src/Context/Leaving.antt =====
-- What `with` leaves behind, on a `CassetteContextDecorator` of vcrmartin/cassette.py.
use vcrpy.Prelude.{
  Bool, Bool-cases, Error, Option, Result, Str, ap, err, false, get_elem?, inl, inr, length, none,
  not, ok, ok-injective, ok_of_bind, refl, some, sym, true, ℕ, ◌||◌, ◌∙◌, ◌≡◌,
}
use vcrpy.Cassette.{Cassette}
use vcrpy.Cassette.Storage.{Persister, load}
use vcrpy.Context.{
  Arguments, Context, Decorator, enter, save_own, save_found, saved, reset, exit, handle_function,
  transformed_path, is_err, run_inside,
}

-- After `__enter__`, the decorator has the new cassette and a token with the old value.
abbrev pub entered : {Q P W : Type 0} → ℕ → Context Q P W → Decorator
entered place s = record {
  cassette = some place;
  token = some (record { before = s.current; used = false });
}

module _ {Q P W : Type 0} (persister : Str → Persister Q P W) where
  pub decorator-enter :
      (a : Arguments Q P) (s s1 : Context Q P W) (place : ℕ) (d : Decorator)
      → enter persister a s ≡ ok (place, d, s1)
      → d ≡ entered place s
  unfolding enter
  decorator-enter a s s1 place d h =
      let (path, _, h1) = ok_of_bind (transformed_path a.path_transformer a.path) _ h in
      let (cassette, _, h2) = ok_of_bind (load (persister path) a.settings s.world) _ h1 in
      let same = ok-injective h2 in
      let places : length s.cassettes ≡ place = λ i. (same i).0 in
      sym (λ i. (same i).1) ∙ λ i. entered (places i) s

  inside :
      {A : Type 0} (a : Arguments Q P) (again : Result Bool)
      (fn : ℕ → Context Q P W → Result A × Context Q P W) (s s1 : Context Q P W) (place : ℕ)
      (d : Decorator)
      → enter persister a s ≡ ok (place, d, s1)
      → handle_function persister a again fn s
        ≡ run_inside persister again (entered place s) (fn place s1)
  unfolding handle_function
  inside a again fn s s1 place d h =
      rw (handle_function, h)
        (λ i. run_inside persister again (decorator-enter a s s1 place d h i) (fn place s1))

  saved_fails :
      (place : ℕ) (s s3 : Context Q P W) (path : Str) (outcome : Result (Cassette Q P × W))
      (e : Error)
      → saved persister place s path outcome ≡ (some e, s3)
      → s3 ≡ s
  saved_fails place s s3 path (err x) e h = sym (ap (λ (r : Option Error × Context Q P W). r.1) h)
  saved_fails place s s3 path (ok r) e h =
      let first = ap (λ (r : Option Error × Context Q P W). r.0) h in cc first

  found_fails :
      (place : ℕ) (s s3 : Context Q P W) (found : Option (Str × Cassette Q P)) (e : Error)
      → save_found persister place s found ≡ (some e, s3)
      → s3 ≡ s
  found_fails place s s3 none e h = sym (ap (λ (r : Option Error × Context Q P W). r.1) h)
  found_fails place s s3 (some (path, c)) e h = saved_fails place s s3 path _ e h

  -- A save that raises changes nothing.
  save_fails :
      (place : ℕ) (s s3 : Context Q P W) (e : Error)
      → save_own persister (some place) s ≡ (some e, s3)
      → s3 ≡ s
  unfolding save_own
  save_fails place s s3 e h = found_fails place s s3 (get_elem? s.cassettes place) e h

  left_well :
      {A : Type 0} (records : Bool) (place : ℕ) (s s2 s3 : Context Q P W) (outcome : Result A)
      → save_own persister (some place) s2 ≡ (none, s3)
      → ((run_inside persister (ok records) (entered place s) (outcome, s2)).0 ≡ outcome)
        × ((run_inside persister (ok records) (entered place s) (outcome, s2)).1.current
            ≡ s.current)
  unfolding exit reset
  left_well records place s s2 s3 outcome h = elim (Bool-cases (records || not (is_err outcome))) [
    | inl saves ↦ rw (saves, h) (refl, refl)
    | inr skips ↦ rw skips (refl, refl)
  ]

  -- A decorated function whose cassette was entered, and can be saved where it ends, and whose options
  -- can be read once more then: its outcome, a value or an exception, is what the call ends with, and
  -- `current_cassette` holds what it held before the call, whatever the function left there, and
  -- whatever `record_on_exception` has become.
  pub handle_function_restores :
      {A : Type 0} (a : Arguments Q P) (again : Result Bool)
      (fn : ℕ → Context Q P W → Result A × Context Q P W) (s s1 s3 : Context Q P W) (place : ℕ)
      (d : Decorator) (records : Bool)
      → again ≡ ok records
      → enter persister a s ≡ ok (place, d, s1)
      → save_own persister (some place) (fn place s1).1 ≡ (none, s3)
      → ((handle_function persister a again fn s).0 ≡ (fn place s1).0)
        × ((handle_function persister a again fn s).1.current ≡ s.current)
  handle_function_restores a again fn s s1 s3 place d records known h saves =
      let same =
        ap (λ r. handle_function persister a r fn s) known
        ∙ inside a (ok records) fn s s1 place d h in
      let left = left_well records place s (fn place s1).1 s3 (fn place s1).0 saves in
      (ap (λ r. r.0) same ∙ left.0, ap (λ r. r.1.current) same ∙ left.1)

  -- Where the options can be read once more and saving raises, after a function that returned or with
  -- `record_on_exception` on, the call ends with that exception, and `current_cassette` keeps what the
  -- function left there: the cassette of the call stays installed.
  pub failed_save_leaks :
      {A : Type 0} (a : Arguments Q P) (again : Result Bool)
      (fn : ℕ → Context Q P W → Result A × Context Q P W) (s s1 s3 : Context Q P W) (place : ℕ)
      (d : Decorator) (records : Bool) (e : Error)
      → again ≡ ok records
      → (records || not (is_err (fn place s1).0)) ≡ true
      → enter persister a s ≡ ok (place, d, s1)
      → save_own persister (some place) (fn place s1).1 ≡ (some e, s3)
      → handle_function persister a again fn s ≡ (err e, (fn place s1).1)
  unfolding exit
  failed_save_leaks a again fn s s1 s3 place d records e known saving h fails =
      let kept = save_fails place (fn place s1).1 s3 e fails in
      ap (λ r. handle_function persister a r fn s) known
      ∙ inside a (ok records) fn s s1 place d h
      ∙ rw (saving, fails) (λ i. (err e, kept i))
