-- ===== src/Voice/Table.antt =====
-- The transition table (internal/usecases/voice/state_machine.go) against the lifecycle diagram.
use a2text.Base.{none, some, ◌≡◌, ◌≢◌, refl, ◌⊎◌, inl, inr, String, arith}
use a2text.Domain.{State, Event, Action, Err}
use a2text.Voice.Transition.{transition}

-- One of the six declared states.
abbrev pub IsKnown : State → Type 0
IsKnown (State.other s) = ⊥
IsKnown _ = Unit

-- A state in which a dictation cycle is under way, and one in which none is.
pub data IsResting : State → Type 0 where
  at_idle : IsResting State.idle
  at_error : IsResting State.error

pub data IsActive : State → Type 0 where
  at_recording : IsActive State.recording
  at_transcribing : IsActive State.transcribing
  at_delivering : IsActive State.delivering

-- The lifecycle diagram: which event leads from which state to which, with which action.
pub data Edge : State → Event → State → Action → Type 0 where
  begin_toggle :
      {s : State} → IsResting s → Edge s Event.toggle State.recording Action.start_recording
  begin_start :
      {s : State} → IsResting s → Edge s Event.start State.recording Action.start_recording
  end_toggle : Edge State.recording Event.toggle State.transcribing Action.stop_recording
  end_stop : Edge State.recording Event.stop State.transcribing Action.stop_recording
  end_timeout : Edge State.recording Event.timeout State.transcribing Action.stop_recording
  capture_broke : Edge State.recording Event.record_failed State.error Action.none
  have_text : Edge State.transcribing Event.transcribe_done State.delivering Action.none
  no_text : Edge State.transcribing Event.empty_result State.idle Action.finish_cycle
  stt_broke : Edge State.transcribing Event.transcribe_failed State.error Action.none
  delivered : Edge State.delivering Event.deliver_done State.idle Action.finish_cycle
  quit_resting :
      {s : State} → IsResting s → Edge s Event.shutdown State.shutting_down Action.shutdown_now
  quit_recording : Edge State.recording Event.shutdown State.shutting_down Action.discard_audio
  quit_transcribing : Edge State.transcribing Event.shutdown State.shutting_down Action.shutdown_now
  quit_delivering : Edge State.delivering Event.shutdown State.shutting_down Action.shutdown_now

ruleset edges = (
  begin_toggle, begin_start, end_toggle, end_stop, end_timeout, capture_broke, have_text, no_text,
  stt_broke, delivered, quit_resting, quit_recording, quit_transcribing, quit_delivering, at_idle,
  at_error,
)

-- An accepted event of a declared state follows an edge of the lifecycle diagram, to the state and
-- with the action that the edge names.
pub transition-Edge :
    (s : State) (e : Event)
    → IsKnown s
    → (transition s e).error ≡ none
    → Edge s e (transition s e).state (transition s e).action
unfolding transition
transition-Edge (State.other x) e k h = absurd k
transition-Edge State.shutting_down e k h = cc
transition-Edge _ e k h = grind (arith, edges)

-- Every edge of the lifecycle diagram is taken: the transition on its event is accepted and gives its
-- state and its action.
pub Edge-transition :
    {s t : State} {e : Event} {a : Action}
    → Edge s e t a
    → ((transition s e).error ≡ none) × ((transition s e).state ≡ t) × ((transition s e).action ≡ a)
unfolding transition
Edge-transition (begin_toggle at_idle) = (refl, refl, refl)
Edge-transition (begin_toggle at_error) = (refl, refl, refl)
Edge-transition (begin_start at_idle) = (refl, refl, refl)
Edge-transition (begin_start at_error) = (refl, refl, refl)
Edge-transition (quit_resting at_idle) = (refl, refl, refl)
Edge-transition (quit_resting at_error) = (refl, refl, refl)
Edge-transition _ = (refl, refl, refl)

-- A rejected event of any state, declared or not, leaves the state as it was and asks for no action.
transition_rejected :
    (s : State) (e : Event) {x : Err}
    → (transition s e).error ≡ some x
    → ((transition s e).state ≡ s) × ((transition s e).action ≡ Action.none)
unfolding transition
transition_rejected State.idle e h = ground arith
transition_rejected _ e h = ground arith

-- The only errors are `busy` and `unknown_event`: no state and no event gives
-- `invalid_event_for_state`, and the internal `event_not_handled` never leaves the function.
pub transition_errors :
    (s : State) (e : Event) {x : Err}
    → (transition s e).error ≡ some x
    → (x ≡ Err.busy) ⊎ (x ≡ Err.unknown_event)
unfolding transition
transition_errors State.idle e h = ground arith
transition_errors _ e h = ground arith

-- A string that is no declared event is refused: as unknown in each declared state but one, as busy
-- while shutting down.
transition_unknown :
    (s : State) (name : String)
    → IsKnown s
    → ((s ≡ State.shutting_down) × ((transition s (Event.other name)).error ≡ some Err.busy))
      ⊎ ((s ≢ State.shutting_down)
          × ((transition s (Event.other name)).error ≡ some Err.unknown_event))
unfolding transition
transition_unknown State.shutting_down name k = inl (refl, refl)
transition_unknown (State.other x) name k = absurd k
transition_unknown _ name k = inr ((λ e. cc), refl)
