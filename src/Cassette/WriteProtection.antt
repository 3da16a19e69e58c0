-- ===== src/Cassette/WriteProtection.antt =====
-- vcrmartin/cassette.py, what `write_protected` and `filter_request` say, for the stubs.
use vcrpy.Prelude.{Option, arith, false, ok, true, ◌==◌, ◌≡◌, List_eq, ℕ_eq}
use vcrpy.RecordMode.{RecordMode, RecordMode_eq}
use vcrpy.Cassette.{Cassette, write_protected, filter_request}

module _ {Q P : Type 0} where
  -- Only the modes `NONE` and `ONCE` protect a cassette.
  pub write_protected-ne_all :
      (c : Cassette Q P) → write_protected c ≡ true → (c.record_mode == RecordMode.all) ≡ false
  unfolding write_protected
  write_protected-ne_all c h = ground arith

  pub kept_of_filter_request :
      (c : Cassette Q P) (r : Q) {kept : Option Q}
      → c.before_record_request r ≡ ok kept
      → filter_request c r ≡ ok kept
  unfolding filter_request
  kept_of_filter_request c r h = h
