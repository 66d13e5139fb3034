-- ===== src/Runtime/Trace/Steps.antt =====
-- For every order of the steps of the two threads of a trace, crates/wsharp-runtime/src/mark.rs.
use wsharp.Prelude.{
  ℕ, ◌+◌, ◌≤◌, ◌≡◌, refl, sym, ◌∙◌, ap, ◌⊎◌, inl, inr, Bool, true, false, some, arith, subst,
}
use wsharp.Prelude.Run.{ok}
use wsharp.Runtime.Trace.{
  Phase, idle, mark_done, evac_done, Trace, start_with_roots, safepoint, poll_by, gc_poll,
  request_abandon, collector, wait_until, finish_loop, trace_finish, start_loop, trace_start,
  run_full_trace,
}
use wsharp.Runtime.Trace.Runs.{
  Stage, resting, started, marks, asked, paused, stopped, moves_next, moves, moves_asked, moved,
  sweeps_first, sweeps_next, sweeps, is_tracing, is_moving, trace_at, IsStaged, collector-IsStaged,
  safepoint-IsStaged, start-IsStaged, request-IsStaged,
}

-- A step of the collector, a pause or a poll of a thread that does not wait for the collector to give up, the start of a
-- trace, or the request to give up.
pub data Step : Trace → Trace → Type 0 where
  works : (seen : Bool) (t t' : Trace) → collector seen t ≡ some t' → Step t t'
  pauses : (t : Trace) → t.abandon ≡ false → Step t (safepoint t)
  polls : (t : Trace) → t.abandon ≡ false → Step t (gc_poll t)
  starts : (chosen : Bool) (t t' : Trace) → start_with_roots chosen t ≡ ok t' → Step t t'
  gives_up : (t : Trace) → Step t (request_abandon t)

pub data Steps : Trace → Trace → Type 0 where
  done : (t : Trace) → Steps t t
  then_step : (t u v : Trace) → Steps t u → Step u v → Steps t v

poll_by-IsStaged :
    (b : Bool) (t : Trace) → IsStaged (safepoint t) → IsStaged t → IsStaged (poll_by b t)
poll_by-IsStaged true t paused_there here = paused_there
poll_by-IsStaged false t paused_there here = here

gc_poll-IsStaged : (t : Trace) → IsStaged (safepoint t) → IsStaged t → IsStaged (gc_poll t)
unfolding gc_poll
gc_poll-IsStaged t = poll_by-IsStaged t.wanted t

pause-IsStaged : (t : Trace) → IsStaged t → t.abandon ≡ false → IsStaged (safepoint t)
pause-IsStaged t (s, n, e) a =
    rw e (safepoint-IsStaged s n (sym (ap (λ (u : Trace). u.abandon) e) ∙ a))

Step-IsStaged : (t t' : Trace) → IsStaged t → Step t t' → IsStaged t'
Step-IsStaged t t' (s, n, e) (works seen _ _ f) =
    collector-IsStaged seen s n t' (sym (ap (collector seen) e) ∙ f)
Step-IsStaged t _ h (pauses _ a) = pause-IsStaged t h a
Step-IsStaged t _ h (polls _ a) = gc_poll-IsStaged t (pause-IsStaged t h a) h
Step-IsStaged t t' (s, n, e) (starts chosen _ _ f) =
    start-IsStaged chosen s n t' (sym (ap (start_with_roots chosen) e) ∙ f)
Step-IsStaged t _ (s, n, e) (gives_up _) = rw e (request-IsStaged s n)

Steps-IsStaged : (t t' : Trace) → IsStaged t → Steps t t' → IsStaged t'
Steps-IsStaged t _ h (done _) = h
Steps-IsStaged t v h (then_step _ u _ before last) =
    Step-IsStaged u v (Steps-IsStaged t u h before) last

-- A phase in which the collector waits for a pause.
abbrev pub waits_for_pause : Phase → Bool
waits_for_pause mark_done = true
waits_for_pause evac_done = true
waits_for_pause _ = false

-- The flags say what the phase says, a wait for a pause has its request, nothing that moved objects is given up, and the
-- collector can work on unless it is idle or waits for a pause.
pub record IsSafe (t : Trace) : Type 0 where
  pub tracing : t.tracing ≡ is_tracing t.phase
  pub moving : t.moving ≡ is_moving t.phase
  pub wanted : waits_for_pause t.phase ≡ true → t.wanted ≡ true
  pub kept : t.moving ≡ true → t.abandon ≡ false
  pub goes_on :
      ((t' : Trace) × (collector false t ≡ some t'))
      ⊎ ((t.phase ≡ idle) ⊎ (waits_for_pause t.phase ≡ true))

stage-IsSafe : (s : Stage) (n : ℕ) → IsSafe (trace_at s n)
unfolding collector
stage-IsSafe resting n = record {
  tracing = refl;
  moving = refl;
  wanted = λ h. absurd (cc);
  kept = λ h. refl;
  goes_on = inr (inl refl);
}
stage-IsSafe (started c true) n = record {
  tracing = refl;
  moving = refl;
  wanted = λ h. absurd (cc);
  kept = λ h. absurd (cc);
  goes_on = inl (_, refl);
}
stage-IsSafe (started c false) n = record {
  tracing = refl;
  moving = refl;
  wanted = λ h. absurd (cc);
  kept = λ h. refl;
  goes_on = inl (_, refl);
}
stage-IsSafe (marks c true) n = record {
  tracing = refl;
  moving = refl;
  wanted = λ h. absurd (cc);
  kept = λ h. absurd (cc);
  goes_on = inl (_, refl);
}
stage-IsSafe (marks c false) n = record {
  tracing = refl;
  moving = refl;
  wanted = λ h. absurd (cc);
  kept = λ h. refl;
  goes_on = inl (_, refl);
}
stage-IsSafe (asked c a) n = record {
  tracing = refl;
  moving = refl;
  wanted = λ h. refl;
  kept = λ h. absurd (cc);
  goes_on = inl (_, refl);
}
stage-IsSafe (paused c a) n = record {
  tracing = refl;
  moving = refl;
  wanted = λ h. refl;
  kept = λ h. absurd (cc);
  goes_on = inr (inr refl);
}
stage-IsSafe (stopped c) n = record {
  tracing = refl;
  moving = refl;
  wanted = λ h. absurd (cc);
  kept = λ h. absurd (cc);
  goes_on = inl (_, refl);
}
stage-IsSafe moves_next n = record {
  tracing = refl;
  moving = refl;
  wanted = λ h. absurd (cc);
  kept = λ h. refl;
  goes_on = inl (_, refl);
}
stage-IsSafe moves n = record {
  tracing = refl;
  moving = refl;
  wanted = λ h. absurd (cc);
  kept = λ h. refl;
  goes_on = inl (_, refl);
}
stage-IsSafe moves_asked n = record {
  tracing = refl;
  moving = refl;
  wanted = λ h. refl;
  kept = λ h. refl;
  goes_on = inl (_, refl);
}
stage-IsSafe moved n = record {
  tracing = refl;
  moving = refl;
  wanted = λ h. refl;
  kept = λ h. refl;
  goes_on = inr (inr refl);
}
stage-IsSafe sweeps_first n = record {
  tracing = refl;
  moving = refl;
  wanted = λ h. absurd (cc);
  kept = λ h. refl;
  goes_on = inl (_, refl);
}
stage-IsSafe sweeps_next n = record {
  tracing = refl;
  moving = refl;
  wanted = λ h. absurd (cc);
  kept = λ h. refl;
  goes_on = inl (_, refl);
}
stage-IsSafe sweeps n = record {
  tracing = refl;
  moving = refl;
  wanted = λ h. absurd (cc);
  kept = λ h. refl;
  goes_on = inl (_, refl);
}

-- After any steps of the two threads from a state with no trace, where the program's thread does not pause while it waits
-- for the collector to give up, the flags of tracing and moving are those of the phase, a phase that waits for a pause
-- has its request set, so that no poll misses it, no trace that moves objects is given up, and the collector can work on
-- unless there is no trace or it waits for that pause.
pub Steps-IsSafe : (n : ℕ) (t : Trace) → Steps (trace_at resting n) t → IsSafe t
Steps-IsSafe n t steps =
    let (s, k, e) = Steps-IsStaged (trace_at resting n) t (resting, n, refl) steps in
    subst IsSafe (sym e) (stage-IsSafe s k)

finish_ends :
    (s : Stage) (n : ℕ)
    → (trace_at s n).abandon ≡ false
    → trace_finish (trace_at s n) ≡ ok (trace_at resting n)
unfolding trace_finish finish_loop wait_until collector safepoint
finish_ends resting n e = refl
finish_ends (started c true) n e = absurd (cc)
finish_ends (started true false) n e = refl
finish_ends (started false false) n e = refl
finish_ends (marks c true) n e = absurd (cc)
finish_ends (marks true false) n e = refl
finish_ends (marks false false) n e = refl
finish_ends (asked c true) n e = absurd (cc)
finish_ends (asked true false) n e = refl
finish_ends (asked false false) n e = refl
finish_ends (paused c true) n e = absurd (cc)
finish_ends (paused true false) n e = refl
finish_ends (paused false false) n e = refl
finish_ends (stopped c) n e = absurd (cc)
finish_ends moves_next n e = refl
finish_ends moves n e = refl
finish_ends moves_asked n e = refl
finish_ends moved n e = refl
finish_ends sweeps_first n e = refl
finish_ends sweeps_next n e = refl
finish_ends sweeps n e = refl

-- After any steps of the two threads from a state with no trace, unless the collector was told to give up, `trace_finish`
-- returns: if the collector works while the program's thread waits, the trace in flight goes through its phases to
-- the end, with no wait of the two threads for each other, and no flag or request of it is left. None is started.
pub trace_finish-ends :
    (n : ℕ) (t : Trace)
    → Steps (trace_at resting n) t
    → t.abandon ≡ false
    → trace_finish t ≡ ok (trace_at resting t.traces)
trace_finish-ends n t steps a =
    let (s, k, e) = Steps-IsStaged (trace_at resting n) t (resting, n, refl) steps in
    let here = finish_ends s k (sym (ap (λ (u : Trace). u.abandon) e) ∙ a) in
    let count : t.traces ≡ k = ap (λ (u : Trace). u.traces) e ∙ traces_of s k in
    ap trace_finish e ∙ (here ∙ ap (λ m. ok (trace_at resting m)) (sym count))
  where
    traces_of : (s : Stage) (k : ℕ) → (trace_at s k).traces ≡ k
    traces_of resting k = refl
    traces_of (started c a) k = refl
    traces_of (marks c a) k = refl
    traces_of (asked c a) k = refl
    traces_of (paused c a) k = refl
    traces_of (stopped c) k = refl
    traces_of moves_next k = refl
    traces_of moves k = refl
    traces_of moves_asked k = refl
    traces_of moved k = refl
    traces_of sweeps_first k = refl
    traces_of sweeps_next k = refl
    traces_of sweeps k = refl

full_trace :
    (chosen : Bool) (s : Stage) (n : ℕ)
    → (trace_at s n).abandon ≡ false
    → (k : ℕ) × (run_full_trace chosen (trace_at s n) ≡ ok (trace_at resting k)) × (n ≤ k)
unfolding run_full_trace trace_start start_loop trace_finish finish_loop wait_until collector
    safepoint
full_trace true resting n e = (n + 1, refl, omega arith)
full_trace false resting n e = (n + 1, refl, omega arith)
full_trace chosen (started c true) n e = absurd (cc)
full_trace chosen (started true false) n e = (n, refl, omega arith)
full_trace chosen (started false false) n e = (n, refl, omega arith)
full_trace chosen (marks c true) n e = absurd (cc)
full_trace chosen (marks true false) n e = (n, refl, omega arith)
full_trace chosen (marks false false) n e = (n, refl, omega arith)
full_trace chosen (asked c true) n e = absurd (cc)
full_trace chosen (asked true false) n e = (n, refl, omega arith)
full_trace chosen (asked false false) n e = (n, refl, omega arith)
full_trace chosen (paused c true) n e = absurd (cc)
full_trace chosen (paused true false) n e = (n, refl, omega arith)
full_trace true (paused false false) n e = (n + 1, refl, omega arith)
full_trace false (paused false false) n e = (n + 1, refl, omega arith)
full_trace chosen (stopped c) n e = absurd (cc)
full_trace chosen moves_next n e = (n, refl, omega arith)
full_trace chosen moves n e = (n, refl, omega arith)
full_trace chosen moves_asked n e = (n, refl, omega arith)
full_trace true moved n e = (n + 1, refl, omega arith)
full_trace false moved n e = (n + 1, refl, omega arith)
full_trace true sweeps_first n e = (n + 1, refl, omega arith)
full_trace false sweeps_first n e = (n + 1, refl, omega arith)
full_trace true sweeps_next n e = (n + 1, refl, omega arith)
full_trace false sweeps_next n e = (n + 1, refl, omega arith)
full_trace true sweeps n e = (n + 1, refl, omega arith)
full_trace false sweeps n e = (n + 1, refl, omega arith)

-- After any steps of the two threads from a state with no trace, unless the collector was told to give up, a full trace
-- returns with no trace in flight: if there is none, it starts one.
pub run_full_trace-ends :
    (n : ℕ) (chosen : Bool) (t : Trace)
    → Steps (trace_at resting n) t
    → t.abandon ≡ false
    → (k : ℕ) × (run_full_trace chosen t ≡ ok (trace_at resting k))
      × (run_full_trace chosen (trace_at resting n) ≡ ok (trace_at resting (n + 1)))
unfolding run_full_trace trace_start start_loop trace_finish finish_loop wait_until collector
    safepoint
run_full_trace-ends n true t steps a =
    let (s, m, e) = Steps-IsStaged (trace_at resting n) t (resting, n, refl) steps in
    let (k, f, le) = full_trace true s m (sym (ap (λ (u : Trace). u.abandon) e) ∙ a) in
    (k, ap (run_full_trace true) e ∙ f, refl)
run_full_trace-ends n false t steps a =
    let (s, m, e) = Steps-IsStaged (trace_at resting n) t (resting, n, refl) steps in
    let (k, f, le) = full_trace false s m (sym (ap (λ (u : Trace). u.abandon) e) ∙ a) in
    (k, ap (run_full_trace false) e ∙ f, refl)
