-- ===== src/Daemon/Rest.antt =====
-- Where a completed cycle leaves the machine when no other thread runs in between
-- (internal/infra/daemon/cycle.go).
use a2text.Base.{String, Option, none, some, ◌≡◌, ◌≢◌, ◌⊎◌, inl, inr, arith}
use a2text.Domain.{State, CyclePhase}
use a2text.Voice.Transition.{transition}
use a2text.Voice.Machine.{Machine, apply, apply_with_error, last_error}
use a2text.Daemon.Completion.{
  CycleReturn, result, empty, failed, cleanup, resume, begin_completion, complete,
}

-- A completed success leaves the machine idle, from the recording as from the transcribing state.
pub complete_result :
    (m : Machine)
    → (m.state ≡ State.recording) ⊎ (m.state ≡ State.transcribing)
    → ((complete m result).0.state ≡ State.idle) × ((complete m result).1 ≡ cleanup)
unfolding complete begin_completion resume apply transition
complete_result m h = ground arith

-- An empty transcription is no failure: from the recording as from the transcribing state the machine
-- ends idle, with no error text.
complete_empty :
    (m : Machine)
    → (m.state ≡ State.recording) ⊎ (m.state ≡ State.transcribing)
    → ((complete m empty).0.state ≡ State.idle) × (last_error (complete m empty).0 ≡ "")
unfolding complete begin_completion resume apply transition last_error
complete_empty m h = ground arith

-- A failure that is not of the record phase ends in the error state with its text as the last error,
-- from the recording as from the transcribing state.
pub complete_failed :
    (m : Machine) (phase : Option CyclePhase) (msg : String)
    → phase ≢ some CyclePhase.record_phase
    → (m.state ≡ State.recording) ⊎ (m.state ≡ State.transcribing)
    → ((complete m (failed phase msg)).0.state ≡ State.error)
      × (last_error (complete m (failed phase msg)).0 ≡ msg)
unfolding complete begin_completion resume apply apply_with_error transition last_error
complete_failed m phase msg n h = ground arith

-- A failure of the record phase ends in the error state with its text from the recording state; from
-- the transcribing state, where a stop has moved the machine before the recorder failed, the failure is
-- refused and the machine stays transcribing, exactly as it was.
pub complete_failed_record :
    (m : Machine) (msg : String)
    → (m.state ≡ State.recording) ⊎ (m.state ≡ State.transcribing)
    → let after = complete m (failed (some CyclePhase.record_phase) msg) in
      ((m.state ≡ State.recording) × (after.0.state ≡ State.error) × (last_error after.0 ≡ msg))
      ⊎ ((m.state ≡ State.transcribing) × (after ≡ (m, cleanup)))
unfolding complete begin_completion resume apply apply_with_error transition last_error
complete_failed_record m msg (inl h) = inl (ground arith)
complete_failed_record m msg (inr h) = inr (ground arith)

-- Whatever `Cycle` returned, its completion leaves a machine that is shutting down as it was.
complete_shutdown :
    (m : Machine) (r : CycleReturn) → m.state ≡ State.shutting_down → complete m r ≡ (m, cleanup)
unfolding complete begin_completion resume apply apply_with_error transition
complete_shutdown m result h = ground arith
complete_shutdown m empty h = ground arith
complete_shutdown m (failed none msg) h = ground arith
complete_shutdown m (failed (some phase) msg) h = ground arith
