-- ===== src/Capture/Process.antt =====
-- `orchestrateStop`, `signalAndKill` and `execRunner.Run` of pkg/capture/subprocess_linux.go. What the child and the
-- timers do are parameters; the effects are logged, the latest first.
use a2text.Base.{
  ◌*◌, ◌^◌, Bool, true, false, ◌&&◌, not, Option, none, some, List, ◌∷◌, Text, String,
  if◌then◌else◌,
}
use a2text.Base.Int.{ℤ, pos, ltb_ℤ}

pub data StopReason : Type 0 where
  natural graceful forced : StopReason

pub data Effect : Type 0 where
  start interrupt kill : Effect
  create_temp remove validate : Text → Effect

abbrev pub Trace : Type 0
Trace = List Effect

-- What `select` takes first: the child's exit, the timer or the end of the context.
pub data First : Type 0 where
  exited timer_fired context_done : First

-- The child and the context. `exit_after` is what `Wait` returns after the signals in the trace; `in_grace` tells
-- whether the child ends within the grace after the interrupt.
pub record Child : Type 0 where
  pub start_error : Option String
  pub first : First
  pub in_grace : ℤ → Bool
  pub exit_after : Trace → Option String
  pub has_done : Bool
  pub ctx_err : Trace → Option String

abbrev pub default_stop_grace : ℤ
default_stop_grace = pos (1500 * 10 ^ 6)

-- The reason, what `Wait` returned, and the trace.
pub record Stop : Type 0 where
  pub reason : StopReason
  pub wait_error : Option String
  pub trace : Trace

module _ (c : Child) where
  unfoldable pub signal_and_kill : ℤ → Trace → Stop
  signal_and_kill grace tr =
      let tr1 = Effect.interrupt ∷ tr in
      let tr2 = Effect.kill ∷ tr1 in
      if c.in_grace (if ltb_ℤ (pos 0) grace then grace else default_stop_grace)
      then record { reason = StopReason.graceful; wait_error = c.exit_after tr1; trace = tr1 }
      else record { reason = StopReason.forced; wait_error = c.exit_after tr2; trace = tr2 }

  -- A timer that is not set never fires; it is the child's part not to say that it does.
  on_first : ℤ → Trace → First → Stop
  unfolding signal_and_kill
  on_first grace tr First.exited = record {
    reason = StopReason.natural;
    wait_error = c.exit_after tr;
    trace = tr;
  }
  on_first grace tr First.timer_fired = signal_and_kill grace tr
  on_first grace tr First.context_done = signal_and_kill grace tr

  unfoldable pub orchestrate_stop : ℤ → ℤ → Trace → Stop
  unfolding on_first
  orchestrate_stop stop_after grace tr =
      if not (ltb_ℤ (pos 0) stop_after) && not c.has_done
      then record { reason = StopReason.natural; wait_error = c.exit_after tr; trace = tr }
      else on_first grace tr c.first

-- `execRunner.Run`: none is nil.
pub data RunError : Type 0 where
  start_failed ended cancelled : String → RunError

is_graceful : StopReason → Bool
is_graceful StopReason.graceful = true
is_graceful _ = false

failed_wait : Option String → String → RunError
failed_wait none e = RunError.ended e
failed_wait (some x) e = RunError.cancelled x

module _ (c : Child) where
  unfoldable pub after_wait : Stop → Option RunError × Trace
  unfolding is_graceful failed_wait
  after_wait s = if is_graceful s.reason then (none, s.trace) else elim s.wait_error [
    | none ↦ (none, s.trace)
    | some e ↦ (some (failed_wait (c.ctx_err s.trace) e), s.trace)
  ]

  started : ℤ → ℤ → Trace → Option String → Option RunError × Trace
  unfolding after_wait orchestrate_stop
  started stop_after grace tr (some e) = (some (RunError.start_failed e), tr)
  started stop_after grace tr none =
      after_wait (orchestrate_stop c stop_after grace (Effect.start ∷ tr))

  unfoldable pub run : ℤ → ℤ → Trace → Option RunError × Trace
  unfolding started
  run stop_after grace tr = started stop_after grace tr c.start_error
