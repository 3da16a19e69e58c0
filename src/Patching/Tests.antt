-- ===== src/Patching/Tests.antt =====
-- Concrete cases for vcrmartin/patch.py: httplib with two classes and httplib2 with its table, no
-- other client. Objects and classes are numbers; the stub of the class `n` is `n + 10`.
use vcrpy.Prelude.{
  All, Bool, Option, Option-cases, Str, [], arith, ended, err, false, inl, inr, is_some, key_error,
  leb, list_eq, none, ok, pair_eq, raised, refl, runs_on, some, some-injective, str, subst, true, ℕ,
  ◌-◌, ◌<◌, ◌∷◌, ◌≡◌, List_eq, Pair_eq, ℕ_eq,
}
use vcrpy.Dict.{get, get-All}
use vcrpy.Patching.{
  Store, Clients, Value, one, table, Place, build, build_triples, Triple, aiohttp_triples,
  boto3_triples, build_patcher, follow, httplib2_triples, httplib_triples, httpx_triples, origin,
  patch_entries, patch_found, patch_present, requests_triples, tornado_triples, urllib3_triples,
}
use vcrpy.Patching.Originals.{
  Slot, attribute, entry, Roles, IsSound, held, HasShape, class_of, entry_of, Fits,
}
use vcrpy.Patching.Naming.{or_held, all_slots, named_last}
use vcrpy.Patching.Installed.{build_installs, builds_keep_originals, build_all}

abbrev before : Store ℕ ℕ
before = record {
  attributes =
      ((0, str "HTTPConnection"), one 0)
      ∷ ((0, str "HTTPSConnection"), one 1)
      ∷ ((1, str "HTTPConnectionWithTimeout"), one 2)
      ∷ ((1, str "HTTPSConnectionWithTimeout"), one 3)
      ∷ ((1, str "SCHEME_TO_CONNECTION"), table ((str "http", 2) ∷ (str "https", 3) ∷ []))
      ∷ [];
  baseclasses = (10, one 0) ∷ (11, one 1) ∷ (12, one 2) ∷ (13, one 3) ∷ [];
}

abbrev clients : Clients ℕ ℕ
clients = record {
  httplib = 0;
  httplib_stubs = (10, 11);
  conn = none;
  requests_stubs = none;
  urllib3_stubs = (20, 21);
  aws_pools = none;
  boto3_stubs = (22, 23);
  httplib2 = some 1;
  httplib2_stubs = (12, 13);
  simple_client = none;
  curl_client = none;
  client_session = none;
  httpx_clients = none;
}

-- The roles that a store itself shows.
abbrev is_table_value : Option (Value ℕ) → Bool
is_table_value (some (table d)) = true
is_table_value _ = false

abbrev or_zero : Option ℕ → ℕ
or_zero (some n) = n
or_zero none = 0

abbrev is_stub : ℕ → Bool
is_stub n = leb 10 n

abbrev IsReal : Value ℕ → Type 0
IsReal (one n) = n < 10
IsReal (table d) = All (λ (x : Str × ℕ). x.1 < 10) d

IsReal-of : (p : Place ℕ) {v : Value ℕ} → get p before.attributes ≡ some v → IsReal v
IsReal-of p h =
    get-All IsReal p before.attributes
      (
        omega arith,
        (omega arith, (omega arith, (omega arith, ((omega arith, (omega arith, tt)), tt)))),
      )
      h

class_real :
    (v : Option (Value ℕ)) (n : ℕ)
    → ((u : Value ℕ) → v ≡ some u → IsReal u)
    → class_of v ≡ some n
    → n < 10
class_real (some (one m)) n a h = subst (λ k. k < 10) (some-injective _ _ h) (a (one m) refl)
class_real (some (table d)) n a h = cc h
class_real none n a h = cc h

entry_real :
    (k : Str) (v : Option (Value ℕ)) (n : ℕ)
    → ((u : Value ℕ) → v ≡ some u → IsReal u)
    → entry_of k v ≡ some n
    → n < 10
entry_real k (some (one m)) n a h = cc h
entry_real k (some (table d)) n a h = get-All (λ m. m < 10) k d (a (table d) refl) h
entry_real k none n a h = cc h

held_real : (q : Slot ℕ) (n : ℕ) → held q before ≡ some n → n < 10
unfolding held
held_real (attribute p) n h = class_real (get p before.attributes) n (λ u e. IsReal-of p e) h
held_real (entry p k) n h = entry_real k (get p before.attributes) n (λ u e. IsReal-of p e) h

or_zero_real : (q : Slot ℕ) (v : Option ℕ) → held q before ≡ v → is_stub (or_zero v) ≡ false
or_zero_real q none h = refl
or_zero_real q (some n) h = ground (arith, held_real q n h)

abbrev roles : Roles ℕ ℕ
roles = record {
  is_stub = is_stub;
  is_table = λ p. is_table_value (get p before.attributes);
  has_key = λ p k. is_some (entry_of k (get p before.attributes));
  original = λ q. or_zero (held q before);
  behind = λ n. n - 10;
  original_real = λ q. or_zero_real q (held q before) refl;
}

entry_shape : (p : Place ℕ) (v : Value ℕ) → get p before.attributes ≡ some v → HasShape roles p v
entry_shape p (one n) h = rw h refl
entry_shape p (table d) h = (
  rw h refl,
  λ k has. elim (Option-cases (get k d)) [
    | inl missing ↦ absurd (cc (rw (h, missing) at has))
    | inr found ↦ found
  ],
)

base_is :
    (c : ℕ) (v : Value ℕ)
    → get c before.baseclasses ≡ some v
    → (9 < c) × (c < 14) × (v ≡ one (c - 10))
unfolding get
base_is c v h = ground arith

stub_of_real : (n : ℕ) → n < 10 → is_stub n ≡ false
stub_of_real n h = ground arith

before-IsSound : IsSound roles before
before-IsSound = record {
  bases = λ c v h. ground (arith, base_is c v h);
  slots = λ q c h. inl (stub_of_real c (held_real q c h), rw h refl);
  shapes = entry_shape;
}

clients_fit : All (λ (t : Triple ℕ ℕ). Fits roles t.place t.replacement) (build_triples clients)
unfolding build_triples httplib_triples requests_triples boto3_triples urllib3_triples
    httplib2_triples tornado_triples aiohttp_triples httpx_triples held get pair_eq list_eq
clients_fit = (
  (refl, (refl, refl)),
  (
    (refl, (refl, refl)),
    (
      (refl, (refl, refl)),
      ((refl, (refl, refl)), ((refl, ((refl, (refl, refl)), ((refl, (refl, refl)), tt))), tt)),
    ),
  ),
)

build_installs_example :
    (s' : Store ℕ ℕ) × (build clients before ≡ ended (ok s'))
    × IsSound roles s'
    × ((q : Slot ℕ)
        → held q s' ≡ or_held (named_last (all_slots (build_triples clients)) q) (held q before))
build_installs_example = build_installs roles clients before before-IsSound clients_fit

builds_keep_originals_example :
    (s' : Store ℕ ℕ) × (build_all (clients ∷ clients ∷ []) before ≡ ended (ok s'))
    × ((q : Slot ℕ) (c : ℕ)
        → held q s' ≡ some c
        → origin s' (one c) ≡ ended (ok (one (roles.original q))))
builds_keep_originals_example =
    builds_keep_originals roles (clients ∷ clients ∷ []) before before-IsSound
      (clients_fit, (clients_fit, tt))

-- A stub that stands for itself: the loop would never end.
cyclic : Store ℕ ℕ
cyclic = record { attributes = []; baseclasses = (10, one 10) ∷ [] }

cyclic_runs_on : origin cyclic (one 10) ≡ runs_on
unfolding cyclic follow get
cyclic_runs_on = refl

missing_key :
    build_patcher
      (record {
        place = (1, str "SCHEME_TO_CONNECTION");
        replacement = table ((str "ftp", 12) ∷ []);
      })
      before
    ≡ ended (err (raised key_error))
unfolding build_patcher get patch_present patch_found patch_entries pair_eq list_eq
missing_key = refl
