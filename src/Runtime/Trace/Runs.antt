-- ===== src/Runtime/Trace/Runs.antt =====
-- For the phases of a trace, crates/wsharp-runtime/src/mark.rs.
use wsharp.Prelude.{ℕ, ◌+◌, ◌≡◌, refl, sym, Bool, true, false, some, some_inj}
use wsharp.Prelude.Run.{ok}
use wsharp.Runtime.Trace.{
  Phase, idle, marking, mark_done, evacuating, evac_done, sweeping, Place, at_start, in_mark,
  mark_requested, after_mark, in_evacuation, evacuation_requested, after_evacuation, in_sweep,
  Trace, start_with_roots, safepoint, request_abandon, collector,
}

ok_inj : (x y : Trace) → ok x ≡ ok y → x ≡ y
ok_inj x y e = cc

-- The states that a trace goes through; the first Boolean says whether there are blocks to empty, the second whether the
-- collector was told to give up.
pub data Stage : Type 0 where
  resting : Stage
  started marks asked paused : Bool → Bool → Stage
  stopped : Bool → Stage
  moves_next moves moves_asked moved sweeps_first sweeps_next sweeps : Stage

abbrev pub is_tracing : Phase → Bool
is_tracing marking = true
is_tracing mark_done = true
is_tracing _ = false

abbrev pub is_moving : Phase → Bool
is_moving evacuating = true
is_moving evac_done = true
is_moving _ = false

abbrev pub at : Phase → Place → Bool → Bool → Bool → ℕ → Trace
at phase place wanted chosen abandon n = record {
  phase = phase;
  place = place;
  wanted = wanted;
  tracing = is_tracing phase;
  moving = is_moving phase;
  chosen = chosen;
  abandon = abandon;
  traces = n;
}

abbrev pub trace_at : Stage → ℕ → Trace
trace_at resting n = at idle at_start false false false n
trace_at (started c a) n = at marking at_start false c a n
trace_at (marks c a) n = at marking in_mark false c a n
trace_at (asked c a) n = at marking mark_requested true c a n
trace_at (paused c a) n = at mark_done after_mark true c a n
trace_at (stopped c) n = at marking after_mark false c true n
trace_at moves_next n = at evacuating after_mark false true false n
trace_at moves n = at evacuating in_evacuation false true false n
trace_at moves_asked n = at evacuating evacuation_requested true true false n
trace_at moved n = at evac_done after_evacuation true true false n
trace_at sweeps_first n = at sweeping after_mark false false false n
trace_at sweeps_next n = at sweeping after_evacuation false false false n
trace_at sweeps n = at sweeping in_sweep false false false n

-- A trace is at one of the stages.
abbrev pub IsStaged : Trace → Type 0
IsStaged t = (s : Stage) × (n : ℕ) × (t ≡ trace_at s n)

pub collector-IsStaged :
    (seen : Bool) (s : Stage) (n : ℕ) (t' : Trace)
    → collector seen (trace_at s n) ≡ some t'
    → IsStaged t'
unfolding collector
collector-IsStaged seen resting n t' e = absurd (cc)
collector-IsStaged seen (started c true) n t' e = (stopped c, n, some_inj _ _ (sym e))
collector-IsStaged seen (started c false) n t' e = (marks c false, n, some_inj _ _ (sym e))
collector-IsStaged true (marks c true) n t' e = (stopped c, n, some_inj _ _ (sym e))
collector-IsStaged false (marks c true) n t' e = (asked c true, n, some_inj _ _ (sym e))
collector-IsStaged seen (marks c false) n t' e = (asked c false, n, some_inj _ _ (sym e))
collector-IsStaged seen (asked c a) n t' e = (paused c a, n, some_inj _ _ (sym e))
collector-IsStaged seen (paused c true) n t' e = (resting, n, some_inj _ _ (sym e))
collector-IsStaged seen (paused c false) n t' e = absurd (cc)
collector-IsStaged seen (stopped c) n t' e = (resting, n, some_inj _ _ (sym e))
collector-IsStaged seen moves_next n t' e = (moves, n, some_inj _ _ (sym e))
collector-IsStaged seen moves n t' e = (moves_asked, n, some_inj _ _ (sym e))
collector-IsStaged seen moves_asked n t' e = (moved, n, some_inj _ _ (sym e))
collector-IsStaged seen moved n t' e = absurd (cc)
collector-IsStaged seen sweeps_first n t' e = (sweeps, n, some_inj _ _ (sym e))
collector-IsStaged seen sweeps_next n t' e = (sweeps, n, some_inj _ _ (sym e))
collector-IsStaged seen sweeps n t' e = (resting, n, some_inj _ _ (sym e))

-- A pause, unless the program's thread waits for the collector to give up.
pub safepoint-IsStaged :
    (s : Stage) (n : ℕ) → (trace_at s n).abandon ≡ false → IsStaged (safepoint (trace_at s n))
unfolding safepoint
safepoint-IsStaged resting n e = (resting, n, refl)
safepoint-IsStaged (started c a) n e = (started c a, n, refl)
safepoint-IsStaged (marks c a) n e = (marks c a, n, refl)
safepoint-IsStaged (asked c a) n e = (asked c a, n, refl)
safepoint-IsStaged (paused c true) n e = absurd (cc)
safepoint-IsStaged (paused true false) n e = (moves_next, n, refl)
safepoint-IsStaged (paused false false) n e = (sweeps_first, n, refl)
safepoint-IsStaged (stopped c) n e = (stopped c, n, refl)
safepoint-IsStaged moves_next n e = (moves_next, n, refl)
safepoint-IsStaged moves n e = (moves, n, refl)
safepoint-IsStaged moves_asked n e = (moves_asked, n, refl)
safepoint-IsStaged moved n e = (sweeps_next, n, refl)
safepoint-IsStaged sweeps_first n e = (sweeps_first, n, refl)
safepoint-IsStaged sweeps_next n e = (sweeps_next, n, refl)
safepoint-IsStaged sweeps n e = (sweeps, n, refl)

pub start-IsStaged :
    (chosen : Bool) (s : Stage) (n : ℕ) (t' : Trace)
    → start_with_roots chosen (trace_at s n) ≡ ok t'
    → IsStaged t'
start-IsStaged chosen resting n t' e = (started chosen false, n + 1, ok_inj _ _ (sym e))
start-IsStaged chosen (started c a) n t' e = absurd (cc)
start-IsStaged chosen (marks c a) n t' e = absurd (cc)
start-IsStaged chosen (asked c a) n t' e = absurd (cc)
start-IsStaged chosen (paused c a) n t' e = absurd (cc)
start-IsStaged chosen (stopped c) n t' e = absurd (cc)
start-IsStaged chosen moves_next n t' e = absurd (cc)
start-IsStaged chosen moves n t' e = absurd (cc)
start-IsStaged chosen moves_asked n t' e = absurd (cc)
start-IsStaged chosen moved n t' e = absurd (cc)
start-IsStaged chosen sweeps_first n t' e = absurd (cc)
start-IsStaged chosen sweeps_next n t' e = absurd (cc)
start-IsStaged chosen sweeps n t' e = absurd (cc)

pub request-IsStaged : (s : Stage) (n : ℕ) → IsStaged (request_abandon (trace_at s n))
unfolding request_abandon
request-IsStaged resting n = (resting, n, refl)
request-IsStaged (started c a) n = (started c true, n, refl)
request-IsStaged (marks c a) n = (marks c true, n, refl)
request-IsStaged (asked c a) n = (asked c true, n, refl)
request-IsStaged (paused c a) n = (paused c true, n, refl)
request-IsStaged (stopped c) n = (stopped c, n, refl)
request-IsStaged moves_next n = (moves_next, n, refl)
request-IsStaged moves n = (moves, n, refl)
request-IsStaged moves_asked n = (moves_asked, n, refl)
request-IsStaged moved n = (moved, n, refl)
request-IsStaged sweeps_first n = (sweeps_first, n, refl)
request-IsStaged sweeps_next n = (sweeps_next, n, refl)
request-IsStaged sweeps n = (sweeps, n, refl)
