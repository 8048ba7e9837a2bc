-- ===== src/Extension/Teardown.antt =====
-- `TeardownOrchestrator` of apps/extension/src/teardown.ts. A step's `run` is what its call does at
-- once to an environment `E`, up to its first await; how its promise settles is an event of its own,
-- so other calls of `run()` come in between.
pub mod Once
use Prim.Native.String
use remotetab.Prelude.{ℕ, zero, suc, String, Option, none, some, List, [], ◌∷◌, ◌++◌}

pub record TeardownStep (E : Type 0) : Type 0 where
  pub name : String
  pub run : E → E

-- What a promise is rejected with.
pub data Thrown : Type 0 where
  error : (name message : String) → Thrown
  other : Thrown

-- The first characters of a text.
unfoldable pub slice : ℕ → String → String
slice zero s = String.[]
slice (suc n) String.[] = String.[]
slice (suc n) (String.◌∷◌ c s) = String.◌∷◌ c (slice n s)

unfoldable pub reason_of : Thrown → String
unfolding slice
reason_of (error name message) = String.◌++◌ name (String.◌++◌ ": " (slice 80 message))
reason_of other = "unknown error"

pub record Failure : Type 0 where
  pub name : String
  pub reason : String

pub record TeardownReport : Type 0 where
  pub completed : List String
  pub failed : List Failure

-- A pass of `execute()` that awaits the promise of `current`.
pub record Pass (E : Type 0) : Type 0 where
  pub current : TeardownStep E
  pub rest : List (TeardownStep E)
  pub report : TeardownReport

pub record Teardown (E : Type 0) : Type 0 where
  pub steps : List (TeardownStep E)
  pub running_pass : Option (Pass E)
  pub finished : Option TeardownReport
  pub env : E

-- The promise that a caller gets: of the pass under way, or of a report.
pub data Promised : Type 0 where
  pending : Promised
  resolved : TeardownReport → Promised

pub data TeardownEvent : Type 0 where
  runs : TeardownEvent
  settles : (thrown : Option Thrown) → TeardownEvent

module _ {E : Type 0} where
  -- The constructor.
  abbrev pub new_teardown : List (TeardownStep E) → E → Teardown E
  new_teardown steps env = record { steps = steps; running_pass = none; finished = none; env = env }

  -- The head of the loop: the next step is called, or the pass ends.
  unfoldable pub proceed : List (TeardownStep E) → TeardownReport → Teardown E → Teardown E
  proceed [] report t = record t { running_pass = none; finished = some report }
  proceed (s ∷ rest) report t = record t {
    running_pass = some (record { current = s; rest = rest; report = report });
    env = s.run t.env;
  }

  -- `run()`.
  unfoldable pub run : Teardown E → Teardown E × Promised
  unfolding proceed
  run t = elim t.finished [
    | some report ↦ (t, resolved report)
    | none ↦ elim t.running_pass [
      | some pass ↦ (t, pending)
      | none ↦ (proceed t.steps (record { completed = []; failed = [] }) t, pending)
    ]
  ]

  -- The report behind a step.
  unfoldable pub record_step : TeardownStep E → Option Thrown → TeardownReport → TeardownReport
  unfolding reason_of
  record_step s none report = record report { completed = report.completed ++ s.name ∷ [] }
  record_step s (some thrown) report = record report {
    failed = report.failed ++ record { name = s.name; reason = reason_of thrown } ∷ [];
  }

  -- The promise of the current step settles.
  unfoldable pub settle : Option Thrown → Teardown E → Teardown E
  unfolding proceed record_step
  settle thrown t = elim t.running_pass [
    | none ↦ t
    | some pass ↦ proceed pass.rest (record_step pass.current thrown pass.report) t
  ]

  unfoldable pub handle : Teardown E → TeardownEvent → Teardown E
  unfolding run settle
  handle t runs = (run t).0
  handle t (settles thrown) = settle thrown t

  unfoldable pub play : Teardown E → List TeardownEvent → Teardown E
  play t [] = t
  play t (e ∷ es) = play (handle t e) es
