-- ===== src/Prelude/Errors.antt =====
-- Exceptions as values. `assertion_error` is apart because the matchers catch it alone.
use mathlib.Core.Path.{◌≡◌, refl}
use mathlib.Core.Logic.{◌⊎◌, inl, inr}
use vcrpy.Prelude.Lists.{Str}
use Prim.Native.Nat.{ℕ}

-- `UnhandledHTTPRequestError` and `CannotOverwriteExistingCassetteException` are those of
-- errors.py, `CassetteNotFoundError` and `CassetteDecodeError` those of persisters/filesystem.py;
-- `user` is whatever a callback of the user raises.
pub data Exception : Type 0 where
  attribute_error type_error value_error key_error name_error : Exception
  unbound_local_error unicode_error lookup_error index_error runtime_error : Exception
  unhandled_http_request cannot_overwrite_existing_cassette : Exception
  cassette_not_found cassette_decode file_not_found : Exception
  user : ℕ → Exception

pub data Error : Type 0 where
  assertion_error : Str → Error
  raised : Exception → Error

-- What a call gives back: the exception that ended it, or its value.
pub data Result {ℓ} (A : Type ℓ) : Type ℓ where
  err : Error → Result A
  ok : A → Result A

-- Python runs the rest only after a call that returned.
infixl 5 ◌>>=◌
abbrev pub ◌>>=◌ {κ ℓ} : {B : Type κ} {A : Type ℓ} → Result B → (B → Result A) → Result A
◌>>=◌ (err e) rest = err e
◌>>=◌ (ok b) rest = rest b

pub Result-cases {κ} :
    {B : Type κ} (outcome : Result B)
    → ((b : B) × (outcome ≡ ok b)) ⊎ ((e : Error) × (outcome ≡ err e))
Result-cases (err e) = inr (e, refl)
Result-cases (ok b) = inl (b, refl)

pub ok-injective {κ} : {B : Type κ} {b b' : B} → ok b ≡ ok b' → b ≡ b'
ok-injective same = cc same

-- Where a sequence of two calls returned, both did.
pub ok_of_bind {κ ℓ} :
    {B : Type κ} {A : Type ℓ} (call : Result B) (rest : B → Result A) {a : A}
    → (call >>= rest) ≡ ok a
    → (b : B) × (call ≡ ok b) × (rest b ≡ ok a)
ok_of_bind (err e) rest returned = cc
ok_of_bind (ok b) rest returned = (b, refl, returned)

-- A call with a `while` loop, bounded by fuel: it has not come to an end, or it returned or raised.
pub data Run {ℓ} (A : Type ℓ) : Type ℓ where
  runs_on : Run A
  ended : Result A → Run A

abbrev pub then_run {κ ℓ} : {B : Type κ} {A : Type ℓ} → Run B → (B → Run A) → Run A
then_run runs_on rest = runs_on
then_run (ended (err e)) rest = ended (err e)
then_run (ended (ok b)) rest = rest b
