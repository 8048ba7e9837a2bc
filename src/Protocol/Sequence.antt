-- ===== src/Protocol/Sequence.antt =====
-- `SequenceGuard` of packages/protocol/src/frame.ts. A schema-checked `seq` is a whole number, so
-- it is a number here; the reasons of the errors are left out.
pub mod Runs
use remotetab.Prelude.{ℕ, ◌+◌, ◌-◌, ◌^◌, ◌==◌, ltb, leb, not, Bool, ◌||◌, if◌then◌else◌}
use remotetab.Protocol.Errors.{ErrorCode, message_invalid, replay_rejected}

abbrev pub max_safe_integer : ℕ
max_safe_integer = 2 ^ 53 - 1

pub record SequenceGuard : Type 0 where
  pub last_seq : ℕ

abbrev pub new_guard : SequenceGuard
new_guard = record { last_seq = 0 }

pub data Verdict : Type 0 where
  accepted : Verdict
  refused : ErrorCode → Verdict

-- `check(seq)`: the guard after the call and the verdict.
unfoldable pub check : SequenceGuard → ℕ → SequenceGuard × Verdict
check g seq =
    if ltb max_safe_integer seq || ltb seq 1
    then (g, refused message_invalid)
    else if leb seq g.last_seq
    then (g, refused replay_rejected)
    else if not (seq == g.last_seq + 1)
    then (g, refused message_invalid)
    else (record { last_seq = seq }, accepted)
