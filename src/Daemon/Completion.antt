-- ===== src/Daemon/Completion.antt =====
-- What the cycle goroutine does with the result of `Cycle`: `advanceCycleSuccess`,
-- `handleCycleError` and `bridgeOutOfRecording` of internal/infra/daemon/cycle.go. Each call on the
-- machine is a step of its own, since other threads run between them; a `Pc` says which comes next.
use a2text.Base.{String, ℕ, zero, suc, Option, none, some}
use a2text.Domain.{Event, Err, CyclePhase}
use a2text.Voice.Transition.{Outcome}
use a2text.Voice.Machine.{Machine, apply, apply_with_error}

-- What `Cycle` returned: a result, an error that is `ErrEmptyResult`, or another error with its text
-- and, if it is a `CycleError`, its phase.
pub data CycleReturn : Type 0 where
  result : CycleReturn
  empty : CycleReturn
  failed : Option CyclePhase → String → CycleReturn

-- Where the cycle goroutine stands.
pub data Pc : Type 0 where
  running : Pc
  success_bridge success_transcribed success_delivered : Pc
  empty_bridge empty_result : Pc
  failed_bridge failed_apply failed_record : String → Pc
  cleanup : Pc

-- The branches of `startCycle`'s goroutine and of `handleCycleError` on what `Cycle` returned.
unfoldable pub begin_completion : CycleReturn → Pc
begin_completion result = success_bridge
begin_completion empty = empty_bridge
begin_completion (failed (some CyclePhase.record_phase) msg) = failed_record msg
begin_completion (failed _ msg) = failed_bridge msg

-- After the bridge of the success path: only an error other than busy ends the path.
after_bridge : Option Err → Pc
after_bridge none = success_transcribed
after_bridge (some Err.busy) = success_transcribed
after_bridge (some _) = cleanup

after_transcribed : Option Err → Pc
after_transcribed none = success_delivered
after_transcribed (some _) = cleanup

-- `ApplyWithError`, of which only the machine is kept; it is called with failure events only.
machine_of : Machine → Option (Machine × Outcome) → Machine
machine_of m none = m
machine_of m (some (m', out)) = m'

-- The next call of the goroutine on the machine, and where it stands after it.
unfoldable pub resume : Machine → Pc → Machine × Pc
unfolding after_bridge after_transcribed machine_of
resume m running = (m, running)
resume m success_bridge = let (m', out) = apply m Event.timeout in (m', after_bridge out.error)
resume m success_transcribed =
    let (m', out) = apply m Event.transcribe_done in (m', after_transcribed out.error)
resume m success_delivered = ((apply m Event.deliver_done).0, cleanup)
resume m empty_bridge = ((apply m Event.timeout).0, empty_result)
resume m empty_result = ((apply m Event.empty_result).0, cleanup)
resume m (failed_bridge msg) = ((apply m Event.timeout).0, failed_apply msg)
resume m (failed_apply msg) =
    (machine_of m (apply_with_error m Event.transcribe_failed msg), cleanup)
resume m (failed_record msg) = (machine_of m (apply_with_error m Event.record_failed msg), cleanup)
resume m cleanup = (m, cleanup)

-- The goroutine undisturbed. A completion has three calls at most.
drive : ℕ → Machine × Pc → Machine × Pc
drive zero s = s
drive (suc n) (m, pc) = drive n (resume m pc)

unfoldable pub complete : Machine → CycleReturn → Machine × Pc
unfolding drive
complete m r = drive 3 (m, begin_completion r)
