-- ===== src/Domain.antt =====
-- The vocabulary of internal/domain: lifecycle states, events, actions, the sentinel errors of the
-- state machine, the phases of a dictation cycle, and the estimate of a recording's duration.
-- `State`, `Event` and `Action` are strings in the source: `other` stands for any string that is
-- none of the constants, `Action.unset` for the zero value of an action.
use a2text.Base.{String, Bool, true, false}

pub data State : Type 0 where
  idle recording transcribing delivering error shutting_down : State
  other : String → State

pub data Event : Type 0 where
  toggle start stop timeout record_failed : Event
  transcribe_done transcribe_failed empty_result deliver_done shutdown : Event
  other : String → Event

pub data Action : Type 0 where
  none start_recording stop_recording discard_audio finish_cycle shutdown_now unset : Action

-- The errors that the state machine returns; `event_not_handled` never leaves `Transition`.
pub data Err : Type 0 where
  busy unknown_event invalid_event_for_state event_not_handled : Err

pub data CyclePhase : Type 0 where
  record_phase transcribe_phase deliver_phase : CyclePhase

-- `state == StateError`
abbrev pub is_error : State → Bool
is_error State.error = true
is_error _ = false

-- `state == StateRecording`
abbrev pub is_recording : State → Bool
is_recording State.recording = true
is_recording _ = false
