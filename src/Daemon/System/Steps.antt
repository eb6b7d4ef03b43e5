-- ===== src/Daemon/System/Steps.antt =====
-- The shared state, the functions that `dispatch` runs, and the steps of the threads.
use a2text.Base.{
  ℕ, suc, Bool, true, false, Option, none, some, List, [], ◌∷◌, ◌++◌, ◌≡◌, if◌then◌else◌,
}
use a2text.Domain.{State, Event, Action, Err}
use a2text.Voice.Transition.{Outcome}
use a2text.Voice.Machine.{Machine, new_machine, apply}
use a2text.Daemon.Completion.{Pc, CycleReturn, running, cleanup, begin_completion, resume}

pub record System : Type 0 where
  pub machine : Machine
  pub cycle_cancel : Bool  -- `cycleCancel` and `recordingCancel` are not nil
  pub cycle_cancelled : Bool  -- the cycle's context is cancelled
  pub record_cancelled : Bool  -- the recording's context is cancelled
  pub cycles : List Pc  -- the cycle goroutines
  pub timers : ℕ  -- timers that may yet call `Apply(EventTimeout)`
  pub pending : List Action  -- actions to be dispatched

unfoldable pub new_system : System
unfolding new_machine
new_system = record {
  machine = new_machine;
  cycle_cancel = false;
  cycle_cancelled = false;
  record_cancelled = false;
  cycles = [];
  timers = 0;
  pending = [];
}

-- `startCycle` refuses while a cycle is in flight; else it installs both cancel functions, arms the
-- timer and launches the goroutine.
start_cycle : System → System
start_cycle s = if s.cycle_cancel then s else record s {
  cycle_cancel = true;
  cycle_cancelled = false;
  record_cancelled = false;
  cycles = running ∷ s.cycles;
  timers = suc s.timers;
}

cancel_recording_phase : System → System
cancel_recording_phase s = if s.cycle_cancel then record s { record_cancelled = true } else s

-- The recording's context is a child of the cycle's.
unfoldable pub cancel_cycle : System → System
cancel_cycle s =
    if s.cycle_cancel then record s { cycle_cancelled = true; record_cancelled = true } else s

unfoldable pub dispatch : System → Action → System
unfolding start_cycle cancel_recording_phase cancel_cycle
dispatch s Action.start_recording = start_cycle s
dispatch s Action.stop_recording = cancel_recording_phase s
dispatch s Action.discard_audio = cancel_cycle s
dispatch s _ = s

-- `Apply`, whose caller goes on to dispatch the action unless there was an error.
push_action : List Action → Outcome → Option Err → List Action
push_action rest out none = out.action ∷ rest
push_action rest out (some x) = rest

unfoldable pub feed : System → Event → System
unfolding push_action
feed s e =
    let (m, out) = apply s.machine e in
    record s { machine = m; pending = push_action s.pending out out.error }

-- `Shutdown` drops the machine's answer and cancels both contexts itself.
unfoldable pub begin_shutdown : System → System
begin_shutdown s = record s { machine = (apply s.machine Event.shutdown).0 }

-- The deferred end of the goroutine: both cancel functions go, and both contexts end.
unfoldable pub end_cycle : System → List Pc → System
end_cycle s rest = record s {
  cycle_cancel = false;
  cycle_cancelled = true;
  record_cancelled = true;
  cycles = rest;
}

-- An event that the hotkey or the tray sends.
pub data IsUserEvent : Event → Type 0 where
  user_toggle : IsUserEvent Event.toggle
  user_start : IsUserEvent Event.start
  user_stop : IsUserEvent Event.stop

pub data Step (s : System) : System → Type 0 where
  -- the user, where the debounce and the hold gate let the event through
  user : {e : Event} → IsUserEvent e → Step s (feed s e)
  -- the recording timer; a winner cancels the recording, as `stop_recording` does
  timer : (n : ℕ) → s.timers ≡ suc n → Step s (feed (record s { timers = n }) Event.timeout)
  -- a thread dispatches the action that it has got
  act :
      (before after : List Action) (a : Action)
      → s.pending ≡ before ++ (a ∷ after)
      → Step s (dispatch (record s { pending = before ++ after }) a)
  -- `Cycle` returns
  returned :
      (before after : List Pc) (r : CycleReturn)
      → s.cycles ≡ before ++ (running ∷ after)
      → Step s (record s { cycles = before ++ (begin_completion r ∷ after) })
  -- the goroutine makes its next call on the machine
  resumed :
      (before after : List Pc) (pc : Pc)
      → s.cycles ≡ before ++ (pc ∷ after)
      → Step s (record s {
        machine = (resume s.machine pc).0;
        cycles = before ++ ((resume s.machine pc).1 ∷ after);
      })
  -- the goroutine ends; it stops its timer first, unless the timer has just fired
  stopped_timer :
      (before after : List Pc) (n : ℕ)
      → s.cycles ≡ before ++ (cleanup ∷ after)
      → s.timers ≡ suc n
      → Step s (record s { timers = n })
  ended :
      (before after : List Pc)
      → s.cycles ≡ before ++ (cleanup ∷ after)
      → Step s (end_cycle s (before ++ after))
  -- `Shutdown` and its two cancels
  shut : Step s (begin_shutdown s)
  shut_cancel : s.machine.state ≡ State.shutting_down → Step s (cancel_cycle s)

pub data Reach (s : System) : System → Type 0 where
  here : Reach s s
  next : {t u : System} → Reach s t → Step t u → Reach s u
