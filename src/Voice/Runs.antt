-- ===== src/Voice/Runs.antt =====
-- What holds of every machine that calls of `Apply` and `ApplyWithError` lead to
-- (internal/usecases/voice/state_machine.go).
use a2text.Base.{
  false, Option, none, some, List, [], ◌∷◌, ◌≡◌, ◌≢◌, refl, ◌⊎◌, inl, inr, String, arith,
  Option-cases, ◌↔◌,
}
use a2text.Domain.{State, Event, is_error}
use a2text.Voice.Transition.{Outcome, transition}
use a2text.Voice.Table.{IsKnown}
use a2text.Voice.Machine.{Machine, new_machine, last_error, apply, apply_with_error, notified}

-- A declared state, and no stale error text outside the error state.
pub record IsValid (m : Machine) : Type 0 where
  pub known : IsKnown m.state
  pub no_stale_error : is_error m.state ≡ false → m.last_err ≡ ""

-- A new machine is valid.
pub new_machine-IsValid : IsValid new_machine
unfolding new_machine
new_machine-IsValid = record { known = tt; no_stale_error = λ e. refl }

transition-IsKnown : (s : State) (e : Event) → IsKnown s → IsKnown (transition s e).state
unfolding transition
transition-IsKnown (State.other x) e k = absurd k
transition-IsKnown _ e k = ground arith

-- One call on a machine. A call that panics does so before it takes the lock, and changes nothing.
pub data Call : Type 0 where
  plain : Event → Call
  failure : Event → String → Call

after_panic : Machine → Option (Machine × Outcome) → Machine
after_panic m none = m
after_panic m (some (m', out)) = m'

pub step : Machine → Call → Machine
unfolding after_panic
step m (plain e) = (apply m e).0
step m (failure e msg) = after_panic m (apply_with_error m e msg)

pub run : Machine → List Call → Machine
run m [] = m
run m (c ∷ cs) = run (step m c) cs

-- `Apply` keeps a machine valid, for every event.
apply-IsValid : (m : Machine) (e : Event) → IsValid m → IsValid (apply m e).0
unfolding apply
apply-IsValid m e v = ground (arith, transition-IsKnown m.state e v.known)

step-IsValid : (m : Machine) (c : Call) → IsValid m → IsValid (step m c)
unfolding step apply_with_error
step-IsValid m (plain e) v = apply-IsValid m e v
step-IsValid m (failure e msg) v = ground (arith, transition-IsKnown m.state e v.known)

-- Whatever calls are made on a valid machine, in any order, it stays valid: its state is one of the
-- six, and outside the error state it holds no error text.
pub run-IsValid : (m : Machine) (cs : List Call) → IsValid m → IsValid (run m cs)
unfolding run
run-IsValid m [] v = v
run-IsValid m (c ∷ cs) v = run-IsValid (step m c) cs (step-IsValid m c v)

shutdown_step : (m : Machine) (c : Call) → m.state ≡ State.shutting_down → step m c ≡ m
unfolding step apply apply_with_error transition
shutdown_step m (plain e) h = rw h refl
shutdown_step m (failure e msg) h = ground arith

-- Once a machine is shutting down no sequence of calls changes it in any way.
pub shutdown_absorbs : (m : Machine) (cs : List Call) → m.state ≡ State.shutting_down → run m cs ≡ m
unfolding run
shutdown_absorbs m [] h = refl
shutdown_absorbs m (c ∷ cs) h = rw (shutdown_step m c h) (shutdown_absorbs m cs h)

-- An event that `Apply` refuses leaves the machine as it was and tells the listener nothing; one that
-- it takes moves the machine to the table's next state and tells the listener that state and action.
pub apply-notified :
    (m : Machine) (e : Event)
    → let (m', out) = apply m e in
      ((out.error ≢ none) × (m' ≡ m) × (notified out ≡ none))
      ⊎ ((out.error ≡ none)
          × (m'.state ≡ (transition m.state e).state)
          × (notified out ≡ some (m'.state, (transition m.state e).action)))
unfolding apply notified
apply-notified m e = elim (Option-cases (transition m.state e).error) [
  | inl accepted ↦ inr (ground arith)
  | inr (x, refused) ↦ inl (ground arith)
]

-- `ApplyWithError` panics exactly on the events that carry no failure.
apply_with_error_panics :
    (m : Machine) (e : Event) (msg : String)
    → (apply_with_error m e msg ≡ none)
      ↔ ((e ≢ Event.transcribe_failed) × (e ≢ Event.record_failed))
unfolding apply_with_error
apply_with_error_panics m e msg = (ground arith, ground arith)

-- Where `ApplyWithError` does not panic on a machine in a declared state, it lands in the error state
-- with the given text as the last error, or refuses and leaves the machine as it was.
pub apply_with_error_lands :
    (m : Machine) (e : Event) (msg : String) {m' : Machine} {out : Outcome}
    → IsKnown m.state
    → apply_with_error m e msg ≡ some (m', out)
    → ((out.error ≡ none) × (m'.state ≡ State.error) × (last_error m' ≡ msg))
      ⊎ ((out.error ≢ none) × (m' ≡ m))
unfolding apply_with_error transition last_error
apply_with_error_lands m e msg k h = ground arith
