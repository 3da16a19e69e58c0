-- ===== src/RecordMode.antt =====
-- vcrmartin/record_mode.py.
use vcrpy.Prelude.{Bool, Eq, arith, nat_eq, true, ℕ, ◌↔◌, ◌≡◌}

pub data RecordMode : Type 0 where
  all any new_episodes none once : RecordMode

abbrev rank : RecordMode → ℕ
rank all = 0
rank any = 1
rank new_episodes = 2
rank none = 3
rank once = 4

abbrev pub same_mode : RecordMode → RecordMode → Bool
same_mode a b = nat_eq (rank a) (rank b)

pub same_mode_iff : (a b : RecordMode) → (same_mode a b ≡ true) ↔ (a ≡ b)
same_mode_iff a b = ground arith

instance abbrev pub RecordMode_eq : Eq RecordMode
RecordMode_eq = record { beq = same_mode; beq_iff = same_mode_iff }
