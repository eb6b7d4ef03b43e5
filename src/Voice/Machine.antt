-- ===== src/Voice/Machine.antt =====
-- `Machine`: the current state and the last error, advanced by `Apply` and `ApplyWithError`.
-- The mutex makes each call one step. The listener runs after the call, on what it returns; it is
-- told of a transition exactly when the call has no error.
use a2text.Base.{String, Bool, true, false, Option, none, some, if◌then◌else◌}
use a2text.Domain.{State, Event, Action, Err, is_error}
use a2text.Voice.Transition.{Outcome, transition, reject}

pub record Machine : Type 0 where
  pub state : State
  pub last_err : String

unfoldable pub new_machine : Machine
new_machine = record { state = State.idle; last_err = "" }

-- `LastError`
unfoldable pub last_error : Machine → String
last_error m = if is_error m.state then m.last_err else ""

-- The machine is left alone when the transition has an error; otherwise it moves, with `msg` as the
-- last error if it lands in the error state.
advance : Machine → String → Outcome → Option Err → Machine × Outcome
advance m msg out (some err) = (m, reject m.state err)
advance m msg out none =
    (record { state = out.state; last_err = if is_error out.state then msg else "" }, out)

-- `Apply` clears the last error unless the next state is the error state.
unfoldable pub apply : Machine → Event → Machine × Outcome
unfolding advance
apply m e = let out = transition m.state e in advance m m.last_err out out.error

-- `ApplyWithError` panics, `none`, on an event that carries no failure.
abbrev carries_error : Event → Bool
carries_error Event.transcribe_failed = true
carries_error Event.record_failed = true
carries_error _ = false

unfoldable pub apply_with_error : Machine → Event → String → Option (Machine × Outcome)
unfolding advance
apply_with_error m e msg =
    let out = transition m.state e in
    if carries_error e then some (advance m msg out out.error) else none

-- What the listener is told of a call, if anything.
unfoldable pub notified : Outcome → Option (State × Action)
notified out = elim (out.error) [ none ↦ some (out.state, out.action) | some err ↦ none ]
