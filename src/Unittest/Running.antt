-- ===== src/Unittest/Running.antt =====
-- vcrmartin/unittest.py: what is installed and saved around a test, and which cassette it opens.
use vcrpy.Request.{Request, Urllib}
use vcrpy.Matchers.{Shown}
use vcrpy.Matchers.Bodies.{Loaders}
use vcrpy.Filters.PostData.{Json}
use vcrpy.Filters.Responses.{Response, Zlib}
use vcrpy.Serialize.{Serializer}
use vcrpy.Cassette.Storage.{Persister}
use vcrpy.Context.{Context, enter, exit, save_own, reset}
use vcrpy.Context.Leaving.{entered, decorator-enter}
use vcrpy.Config.{Config}
use vcrpy.Config.Creation.{Serializers}
use vcrpy.Config.Using.{arguments_of}
use vcrpy.Unittest.{Test, Opened, config_of, opened_with, set_up, clean_up}
use vcrpy.Prelude.{
  Bool, Bool-cases, Option, Result, Str, ap, false, inl, inr, none, ok, ok-injective, ok_of_bind,
  refl, some, sym, ℕ, ◌∙◌, ◌≡◌, ℕ_eq,
}

same_opened :
    {A B : Type 0} {a a' : A} {b b' : B}
    → ◌≡◌ {A = Result (Option A × B)} (ok (some a, b)) (ok (some a', b'))
    → a ≡ a'
same_opened {A} {B} same =
    let options = ap (λ (r : Option A × B). r.0) (ok-injective same) in cc options

module _ {W : Type 0} (persister : Serializer → Str → Persister Request Response W) where
  exit_saved :
      (records : Bool) (p : Str → Persister Request Response W) (place : ℕ)
      (s s2 s3 : Context Request Response W)
      → save_own p (some place) s2 ≡ (none, s3)
      → ((exit p (ok records) (entered place s) false s2).0 ≡ none)
        × ((exit p (ok records) (entered place s) false s2).2 ≡ record s3 { current = s.current })
  unfolding exit reset
  exit_saved records p place s s2 s3 saves = elim (Bool-cases records) [
    | inl on ↦ rw (on, saves) (refl, refl)
    | inr off ↦ rw (off, saves) (refl, refl)
  ]

  module _ {D J : Type 0} (urllib : Urllib) (shown : Shown) (loaders : Loaders D)
      (serializers : Serializers) (codec : Json J) (zlib : Zlib) where
    opened-cm :
        (config : Config) (s s1 : Context Request Response W) (o : Opened Request Response)
        → opened_with urllib shown loaders serializers codec zlib persister config s ≡ ok (o, s1)
        → o.cm ≡ entered o.cassette s
    unfolding opened_with
    opened-cm config s s1 o h =
        let (a, _, h1) = ok_of_bind (arguments_of config) _ h in
        let (found, e, h2) = ok_of_bind (enter (persister config.serializer) a s) _ h1 in
        let same = ok-injective h2 in
        let places : found.0 ≡ o.cassette =
          ap (λ (r : Opened Request Response × Context Request Response W). r.0.cassette) same in
        sym (ap (λ (r : Opened Request Response × Context Request Response W). r.0.cm) same)
        ∙ decorator-enter (persister config.serializer) a s found.2 found.0 found.1 e
        ∙ ap (λ n. entered n s) places

    set_up-cm :
        (t : Test) (s s1 : Context Request Response W) (o : Opened Request Response)
        → set_up urllib shown loaders serializers codec zlib persister t s ≡ ok (some o, s1)
        → o.cm ≡ entered o.cassette s
    unfolding set_up
    set_up-cm t s s1 o h = elim (Bool-cases t.vcr_enabled) [
      | inl on ↦
          let (config, _, h1) =
            ok_of_bind (config_of urllib shown loaders serializers codec zlib t) _ (rw on at h) in
          let (found, e, h2) =
            ok_of_bind (opened_with urllib shown loaders serializers codec zlib persister config s)
              _ h1 in
          let same : found.0 ≡ o = same_opened h2 in
          ap (λ (x : Opened Request Response). x.cm) (sym same)
          ∙ opened-cm config s found.1 found.0 e
          ∙ ap (λ (x : Opened Request Response). entered x.cassette s) same
      | inr off ↦ cc (rw off at h)
    ]

    -- After the clean-up of a test whose `setUp` opened a cassette, which can be saved, and whose
    -- options can be read once more:
    -- `current_cassette` holds what it held before `setUp`, whatever the test left there, and the
    -- cassette is saved whether the test failed or not, even where `record_on_exception` is off.
    pub clean_up_saves :
        (t : Test) (s s1 s2 s3 : Context Request Response W) (o : Opened Request Response)
        (again : Result Bool) (records : Bool)
        → again ≡ ok records
        → set_up urllib shown loaders serializers codec zlib persister t s ≡ ok (some o, s1)
        → save_own (persister o.serializer) (some o.cassette) s2 ≡ (none, s3)
        → ((clean_up urllib shown loaders serializers codec zlib persister o again s2).0 ≡ none)
          × ((clean_up urllib shown loaders serializers codec zlib persister o again s2).2
              ≡ record s3 { current = s.current })
    unfolding clean_up
    clean_up_saves t s s1 s2 s3 o again records known opened saves =
        rw (known, set_up-cm t s s1 o opened)
          (exit_saved records (persister o.serializer) o.cassette s s2 s3 saves)
