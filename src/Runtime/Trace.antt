-- ===== src/Runtime/Trace.antt =====
-- The phases of a trace, crates/wsharp-runtime/src/mark.rs: the program's thread, which runs the pauses, and the
-- collector's thread, which runs `collector_main`. Each function is one thread's work between two points where the other
-- may go on: a wait, a pause, or the store of the phase after the request for a pause. What is marked, moved and swept is
-- no part of this state.
pub mod Runs
pub mod Steps
mod Tests
use wsharp.Prelude.{
  ℕ, zero, suc, ◌+◌, Bool, true, false, not, ◌&&◌, ◌||◌, Option, none, some, if◌then◌else◌,
}
use wsharp.Prelude.Run.{Run, ok, panic, out_of_fuel, then_run}

pub data Phase : Type 0 where
  idle marking mark_done evacuating evac_done sweeping : Phase

-- Where `collector_main` is: at a wait, at work, or between a request for a pause and the store of the phase.
pub data Place : Type 0 where
  at_start in_mark mark_requested after_mark in_evacuation evacuation_requested after_evacuation
        in_sweep :
      Place

-- `wanted` is the request for a pause, `moving` the flag of the load barrier, and `chosen` says that there are blocks to
-- empty.
pub record Trace : Type 0 where
  pub phase : Phase
  pub place : Place
  pub wanted : Bool
  pub tracing : Bool
  pub moving : Bool
  pub chosen : Bool
  pub abandon : Bool
  pub traces : ℕ

abbrev pub is_idle : Phase → Bool
is_idle idle = true
is_idle _ = false

abbrev pub is_marking : Phase → Bool
is_marking marking = true
is_marking _ = false

abbrev pub is_evacuating : Phase → Bool
is_evacuating evacuating = true
is_evacuating _ = false

abbrev pub is_sweeping : Phase → Bool
is_sweeping sweeping = true
is_sweeping _ = false

-- `start_with_roots`, where `select_evacuation` chooses some block or none.
abbrev pub start_with_roots : Bool → Trace → Run Trace
start_with_roots chosen t =
    if is_idle t.phase
    then ok (record t { chosen = chosen; tracing = true; phase = marking; traces = t.traces + 1 })
    else panic

abbrev pub finish_marking : Trace → Trace
finish_marking t = record t {
  tracing = false;
  moving = if t.chosen then true else t.moving;
  wanted = false;
  phase = if t.chosen then evacuating else sweeping;
}

abbrev pub finish_evacuation : Trace → Trace
finish_evacuation t = record t { moving = false; chosen = false; wanted = false; phase = sweeping }

abbrev pub pause_at : Phase → Trace → Trace
pause_at mark_done t = finish_marking t
pause_at evac_done t = finish_evacuation t
pause_at _ t = t

unfoldable pub safepoint : Trace → Trace
safepoint t = pause_at t.phase t

-- `ws_gc_poll`, by whether this worker's request is set.
abbrev pub poll_by : Bool → Trace → Trace
poll_by true t = safepoint t
poll_by false t = t

unfoldable pub gc_poll : Trace → Trace
gc_poll t = poll_by t.wanted t

-- The request of `quiesce` to give up.
abbrev pub abandon_at : Phase → Trace → Trace
abandon_at marking t = record t { abandon = true }
abandon_at mark_done t = record t { abandon = true }
abandon_at _ t = t

unfoldable pub request_abandon : Trace → Trace
request_abandon t = abandon_at t.phase t

-- `abandon`.
abbrev pub stand_down : Trace → Trace
stand_down t = record t {
  place = at_start;
  chosen = false;
  tracing = false;
  wanted = false;
  abandon = false;
  phase = idle;
}

-- The next work of `collector_main`, if it does not wait. `seen` says that a marker that is told to stop sees so before it
-- is done.
abbrev pub work_at : Bool → Place → Trace → Option Trace
work_at seen at_start t =
    if is_marking t.phase || t.abandon
    then some (record t { place = if t.abandon then after_mark else in_mark })
    else none
work_at seen in_mark t =
    if t.abandon && seen
    then some (record t { place = after_mark })
    else some (record t { wanted = true; place = mark_requested })
work_at seen mark_requested t = some (record t { phase = mark_done; place = after_mark })
work_at seen after_mark t =
    if is_evacuating t.phase || is_sweeping t.phase || t.abandon
    then if t.abandon
      then some (stand_down t)
      else some (record t { place = if is_evacuating t.phase then in_evacuation else in_sweep })
    else none
work_at seen in_evacuation t = some (record t { wanted = true; place = evacuation_requested })
work_at seen evacuation_requested t =
    some (record t { phase = evac_done; place = after_evacuation })
work_at seen after_evacuation t =
    if is_sweeping t.phase || t.abandon
    then if t.abandon then some (stand_down t) else some (record t { place = in_sweep })
    else none
work_at seen in_sweep t = some (record t { phase = idle; place = at_start })

unfoldable pub collector : Bool → Trace → Option Trace
collector seen t = work_at seen t.place t

-- A wait of the program's thread for a phase, while the collector works: it is a panic if both wait.
abbrev pub wait_round : (Trace → Run Trace) → (Phase → Bool) → Trace → Option Trace → Run Trace
wait_round rec ready t none = if ready t.phase then ok t else panic
wait_round rec ready t (some t') = if ready t.phase then ok t else rec t'

unfoldable pub wait_until : ℕ → (Phase → Bool) → Trace → Run Trace
wait_until zero ready t = out_of_fuel
wait_until (suc f) ready t = wait_round (wait_until f ready) ready t (collector false t)

-- A wait of five works of the collector.
abbrev pub waits : (Phase → Bool) → Trace → Run Trace
waits ready t = wait_until 5 ready t

-- The loop of `trace_finish`.
abbrev pub finish_round : (Trace → Run Trace) → Phase → Trace → Run Trace
finish_round rec idle t = ok t
finish_round rec marking t = then_run (waits (λ p. not (is_marking p)) t) rec
finish_round rec mark_done t = rec (safepoint t)
finish_round rec evacuating t = then_run (waits (λ p. not (is_evacuating p)) t) rec
finish_round rec evac_done t = rec (safepoint t)
finish_round rec sweeping t = then_run (waits is_idle t) rec

unfoldable pub finish_loop : ℕ → Trace → Run Trace
finish_loop zero t = out_of_fuel
finish_loop (suc f) t = finish_round (finish_loop f) t.phase t

-- A round for each phase.
unfoldable pub trace_finish : Trace → Run Trace
trace_finish t = finish_loop 6 t

-- The loop of `trace_start`, to a new trace or the one in flight.
abbrev pub start_round : Bool → (Trace → Run Trace) → Phase → Trace → Run Trace
start_round chosen rec idle t = start_with_roots chosen t
start_round chosen rec marking t = ok t
start_round chosen rec mark_done t = rec (safepoint t)
start_round chosen rec evacuating t = ok t
start_round chosen rec evac_done t = rec (safepoint t)
start_round chosen rec sweeping t = then_run (waits is_idle t) rec

unfoldable pub start_loop : ℕ → Bool → Trace → Run Trace
start_loop zero chosen t = out_of_fuel
start_loop (suc f) chosen t = start_round chosen (start_loop f chosen) t.phase t

unfoldable pub trace_start : Bool → Trace → Run Trace
trace_start chosen t = start_loop 6 chosen t

unfoldable pub run_full_trace : Bool → Trace → Run Trace
run_full_trace chosen t = then_run (trace_start chosen t) trace_finish
