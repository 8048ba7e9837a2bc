-- ===== src/Extension/Teardown/Once.antt =====
-- One pass, in order, over every step, however the steps settle and however often `run()` is called.
use remotetab.Prelude.{
  ℕ, suc, ◌≡◌, refl, sym, ap, ◌∙◌, String, true, Option, none, some, List, [], ◌∷◌, ◌++◌, arith,
  leb, length, take, if◌then◌else◌,
}
use mathlib.Core.List.{append_assoc, append-nil}
use remotetab.Extension.Teardown.{
  TeardownStep, Thrown, Failure, TeardownReport, Pass, Teardown, pending, resolved, TeardownEvent,
  runs, settles, new_teardown, proceed, run, reason_of, record_step, settle, handle, play,
}

-- How the promises settle, in order.
unfoldable pub outcomes : List TeardownEvent → List (Option Thrown)
outcomes [] = []
outcomes (runs ∷ es) = outcomes es
outcomes (settles o ∷ es) = o ∷ outcomes es

leb-suc : (m n : ℕ) → leb (suc m) (suc n) ≡ leb m n
leb-suc m n = ground arith

module _ {E : Type 0} where
  -- The names of the steps that were fulfilled, and those that were rejected with their reasons.
  unfoldable pub completed_of : List (TeardownStep E) → List (Option Thrown) → List String
  completed_of [] os = []
  completed_of (s ∷ ss) [] = []
  completed_of (s ∷ ss) (none ∷ os) = s.name ∷ completed_of ss os
  completed_of (s ∷ ss) (some e ∷ os) = completed_of ss os

  unfoldable pub failed_of : List (TeardownStep E) → List (Option Thrown) → List Failure
  failed_of [] os = []
  failed_of (s ∷ ss) [] = []
  failed_of (s ∷ ss) (none ∷ os) = failed_of ss os
  failed_of (s ∷ ss) (some e ∷ os) =
      record { name = s.name; reason = reason_of e } ∷ failed_of ss os

  -- The environment once the steps were called, one after the other.
  unfoldable pub called : List (TeardownStep E) → E → E
  called [] env = env
  called (s ∷ ss) env = called ss (s.run env)

  -- The orchestrator in a pass, and behind it.
  unfoldable in_pass : List (TeardownStep E) → Pass E → E → Teardown E
  in_pass steps pass env = record {
    steps = steps;
    running_pass = some pass;
    finished = none;
    env = env;
  }

  unfoldable done : List (TeardownStep E) → TeardownReport → E → Teardown E
  done steps report env = record {
    steps = steps;
    running_pass = none;
    finished = some report;
    env = env;
  }

  play-done :
      (steps : List (TeardownStep E)) (report : TeardownReport) (env : E) (es : List TeardownEvent)
      → play (done steps report env) es ≡ done steps report env
  unfolding play handle run settle done
  play-done steps report env [] = refl
  play-done steps report env (runs ∷ es) = play-done steps report env es
  play-done steps report env (settles o ∷ es) = play-done steps report env es

  -- The report of a pass that goes on from `report`.
  unfoldable extended :
      TeardownReport → List (TeardownStep E) → List (Option Thrown) → TeardownReport
  extended report ss os = record {
    completed = report.completed ++ completed_of ss os;
    failed = report.failed ++ failed_of ss os;
  }

  extended-single :
      (report : TeardownReport) (s : TeardownStep E) (o : Option Thrown) (os : List (Option Thrown))
      → extended report (s ∷ []) (o ∷ os) ≡ record_step s o report
  unfolding extended record_step completed_of failed_of
  extended-single report s none os = simp append-nil refl
  extended-single report s (some e) os = simp append-nil refl

  extended-record_step :
      (report : TeardownReport) (s : TeardownStep E) (o : Option Thrown)
      (ss : List (TeardownStep E)) (os : List (Option Thrown))
      → extended (record_step s o report) ss os ≡ extended report (s ∷ ss) (o ∷ os)
  unfolding extended record_step completed_of failed_of
  extended-record_step report s none ss os = simp append_assoc refl
  extended-record_step report s (some e) ss os = simp append_assoc refl

  -- What a pass comes to.
  record Passes (ss : List (TeardownStep E)) (os : List (Option Thrown)) (report : TeardownReport)
      (env : E) (t : Teardown E) : Type 0 where
    ends : t.finished ≡ (if leb (length ss) (length os) then some (extended report ss os) else none)
    calls : t.env ≡ called (take (suc (length os)) ss) env
    again : run t ≡ (t, elim t.finished [ none ↦ pending | some r ↦ resolved r ])

  done-Passes :
      (steps ss : List (TeardownStep E)) (os : List (Option Thrown)) (report : TeardownReport)
      (env : E) (t : Teardown E)
      → t ≡ done steps (extended report ss os) (called (take (suc (length os)) ss) env)
      → leb (length ss) (length os) ≡ true
      → Passes ss os report env t
  unfolding done run
  done-Passes steps ss os report env t e l = record {
    ends = rw (e, l) refl;
    calls = rw e refl;
    again = rw e refl;
  }

  play-Passes :
      (steps : List (TeardownStep E)) (s : TeardownStep E) (ss : List (TeardownStep E))
      (report : TeardownReport) (env : E) (es : List TeardownEvent)
      → Passes
          (s ∷ ss)
          (outcomes es)
          report
          env
          (play (in_pass steps (record { current = s; rest = ss; report = report }) (s.run env)) es)
  unfolding play handle run settle in_pass proceed outcomes called done
  play-Passes steps s ss report env [] = record { ends = ground arith; calls = refl; again = refl }
  play-Passes steps s ss report env (runs ∷ es) = play-Passes steps s ss report env es
  play-Passes steps s [] report env (settles o ∷ es) =
      done-Passes steps (s ∷ []) (o ∷ outcomes es) report env
        (play (done steps (record_step s o report) (s.run env)) es)
        (play-done steps (record_step s o report) (s.run env) es
          ∙ ap (λ r. done steps r (s.run env)) (sym (extended-single report s o (outcomes es))))
        (ground arith)
  play-Passes steps s (s' ∷ ss) report env (settles o ∷ es) =
      let k = play-Passes steps s' ss (record_step s o report) (s.run env) es in
      record {
        ends = k.ends ∙ rw (extended-record_step report s o (s' ∷ ss) (outcomes es), leb-suc) refl;
        calls = k.calls;
        again = k.again;
      }

  -- Over any calls of `run()` and any settlements of its steps' promises after a first call: the
  -- report is there exactly once every step has settled; it names the steps that were fulfilled and
  -- those that were rejected, with their reasons, in order; the steps have been called in order,
  -- each once, up to the one behind the last that has settled, whatever was rejected; and another
  -- call of `run()` calls no step, and gets that report or waits for it.
  pub play-Once :
      (steps : List (TeardownStep E)) (env : E) (es : List TeardownEvent)
      → let t = play (new_teardown steps env) (runs ∷ es) in
        (t.finished ≡ (
          if leb (length steps) (length (outcomes es))
          then some (record {
            completed = completed_of steps (outcomes es);
            failed = failed_of steps (outcomes es);
          })
          else none))
        × (t.env ≡ called (take (suc (length (outcomes es))) steps) env)
        × (run t ≡ (t, elim t.finished [ none ↦ pending | some report ↦ resolved report ]))
  unfolding play handle run proceed called completed_of failed_of extended in_pass done
  play-Once [] env es =
      let k =
        done-Passes [] [] (outcomes es) (record { completed = []; failed = [] }) env
          (play (done [] (record { completed = []; failed = [] }) env) es)
          (play-done [] (record { completed = []; failed = [] }) env es) (ground arith) in
      (k.ends, k.calls, k.again)
  play-Once (s ∷ ss) env es =
      let k = play-Passes (s ∷ ss) s ss (record { completed = []; failed = [] }) env es in
      (k.ends, k.calls, k.again)
