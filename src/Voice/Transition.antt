-- ===== src/Voice/Transition.antt =====
-- The pure transition table, internal/usecases/voice/state_machine.go.
use a2text.Base.{Bool, true, false, Option, none, some, if◌then◌else◌}
use a2text.Domain.{State, Event, Action, Err}

is_known_event : Event → Bool
is_known_event (Event.other s) = false
is_known_event _ = true

-- What a transition returns: the next state, the action and the error.
pub record Outcome : Type 0 where
  pub state : State
  pub action : Action
  pub error : Option Err

abbrev accept : State → Action → Outcome
accept s a = record { state = s; action = a; error = none }

abbrev pub reject : State → Err → Outcome
reject s e = record { state = s; action = Action.none; error = some e }

transition_to_recording_or_reject : State → Event → Outcome
transition_to_recording_or_reject s Event.toggle = accept State.recording Action.start_recording
transition_to_recording_or_reject s Event.start = accept State.recording Action.start_recording
transition_to_recording_or_reject s Event.shutdown = accept State.shutting_down Action.shutdown_now
transition_to_recording_or_reject s (Event.other x) = reject s Err.event_not_handled
transition_to_recording_or_reject s _ = reject s Err.busy

transition_from_idle : Event → Outcome
unfolding transition_to_recording_or_reject
transition_from_idle = transition_to_recording_or_reject State.idle

transition_from_recording : Event → Outcome
transition_from_recording Event.toggle = accept State.transcribing Action.stop_recording
transition_from_recording Event.stop = accept State.transcribing Action.stop_recording
transition_from_recording Event.timeout = accept State.transcribing Action.stop_recording
transition_from_recording Event.record_failed = accept State.error Action.none
transition_from_recording Event.shutdown = accept State.shutting_down Action.discard_audio
transition_from_recording (Event.other x) = reject State.recording Err.event_not_handled
transition_from_recording _ = reject State.recording Err.busy

transition_from_transcribing : Event → Outcome
transition_from_transcribing Event.transcribe_done = accept State.delivering Action.none
transition_from_transcribing Event.transcribe_failed = accept State.error Action.none
transition_from_transcribing Event.empty_result = accept State.idle Action.finish_cycle
transition_from_transcribing Event.shutdown = accept State.shutting_down Action.shutdown_now
transition_from_transcribing (Event.other x) = reject State.transcribing Err.event_not_handled
transition_from_transcribing _ = reject State.transcribing Err.busy

transition_from_delivering : Event → Outcome
transition_from_delivering Event.deliver_done = accept State.idle Action.finish_cycle
transition_from_delivering Event.shutdown = accept State.shutting_down Action.shutdown_now
transition_from_delivering (Event.other x) = reject State.delivering Err.event_not_handled
transition_from_delivering _ = reject State.delivering Err.busy

transition_from_error : Event → Outcome
unfolding transition_to_recording_or_reject
transition_from_error = transition_to_recording_or_reject State.error

transition_from_shutting_down : Event → Outcome
transition_from_shutting_down e = reject State.shutting_down Err.busy

-- The switch of `Transition` has no default: for an unknown state the results keep their zero values.
dispatch : State → Event → Outcome
unfolding transition_from_idle transition_from_recording transition_from_transcribing
    transition_from_delivering transition_from_error transition_from_shutting_down
dispatch State.idle e = transition_from_idle e
dispatch State.recording e = transition_from_recording e
dispatch State.transcribing e = transition_from_transcribing e
dispatch State.delivering e = transition_from_delivering e
dispatch State.error e = transition_from_error e
dispatch State.shutting_down e = transition_from_shutting_down e
dispatch (State.other s) e = accept (State.other "") Action.unset

-- The tail of `Transition`: an event that the state does not handle is unknown, or invalid here.
resolve : State → Event → Outcome → Option Err → Outcome
resolve s e out (some Err.event_not_handled) =
    reject s (if is_known_event e then Err.invalid_event_for_state else Err.unknown_event)
resolve s e out _ = out

unfoldable pub transition : State → Event → Outcome
unfolding dispatch resolve is_known_event
transition s e = let out = dispatch s e in resolve s e out out.error
