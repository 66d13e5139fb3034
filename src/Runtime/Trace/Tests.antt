-- ===== src/Runtime/Trace/Tests.antt =====
-- Runs of the phases of a trace.
use wsharp.Prelude.{◌≡◌, refl, true, false, some}
use wsharp.Prelude.Run.{ok}
use wsharp.Runtime.Trace.{safepoint, collector, trace_finish}
use wsharp.Runtime.Trace.Runs.{resting, started, marks, paused, trace_at}
use wsharp.Runtime.Trace.Steps.{
  Steps, done, then_step, works, starts, IsSafe, Steps-IsSafe, trace_finish-ends,
}

-- A trace was started, and the collector began to mark.
begun : Steps (trace_at resting 0) (trace_at (marks true false) 1)
unfolding collector
begun =
    then_step (trace_at resting 0) (trace_at (started true false) 1) (trace_at (marks true false) 1)
      (then_step (trace_at resting 0) (trace_at resting 0) (trace_at (started true false) 1)
        (done (trace_at resting 0))
        (starts true (trace_at resting 0) (trace_at (started true false) 1) refl))
      (works false (trace_at (started true false) 1) (trace_at (marks true false) 1) refl)

Steps-IsSafe_example : IsSafe (trace_at (marks true false) 1)
Steps-IsSafe_example = Steps-IsSafe 0 (trace_at (marks true false) 1) begun

trace_finish-ends_example : trace_finish (trace_at (marks true false) 1) ≡ ok (trace_at resting 1)
trace_finish-ends_example = trace_finish-ends 0 (trace_at (marks true false) 1) begun refl

-- A thread that pauses after the request to give up begins to move objects, and the collector gives up after that.
moving_given_up :
    collector false (safepoint (trace_at (paused true true) 1))
    ≡ some (record (trace_at resting 1) { moving = true })
unfolding collector safepoint
moving_given_up = refl
