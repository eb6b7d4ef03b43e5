-- ===== src/Examples/Voice.antt =====
-- The state machine (internal/usecases/voice/state_machine.go) on concrete calls.
use a2text.Base.{none, List, [], ◌∷◌, ◌≡◌, refl}
use a2text.Domain.{State, Event, Action}
use a2text.Voice.Transition.{Outcome, transition}
use a2text.Voice.Table.{Edge, end_timeout, transition-Edge, Edge-transition}
use a2text.Voice.Machine.{Machine}
use a2text.Voice.Runs.{Call, plain, failure}

transition-Edge_example :
    Edge State.recording Event.timeout State.transcribing Action.stop_recording
unfolding transition
transition-Edge_example = transition-Edge State.recording Event.timeout tt refl

Edge-transition_example :
    ((transition State.recording Event.timeout).error ≡ none)
    × ((transition State.recording Event.timeout).state ≡ State.transcribing)
    × ((transition State.recording Event.timeout).action ≡ Action.stop_recording)
Edge-transition_example = Edge-transition end_timeout

abbrev calls : List Call
calls = plain Event.toggle ∷ plain Event.stop ∷ failure Event.transcribe_failed "no network" ∷ []

abbrev closing : Machine
closing = record { state = State.shutting_down; last_err = "" }

abbrev hearing : Machine
hearing = record { state = State.transcribing; last_err = "" }

abbrev broken : Machine
broken = record { state = State.error; last_err = "no network" }

abbrev broke : Outcome
broke = record { state = State.error; action = Action.none; error = none }
