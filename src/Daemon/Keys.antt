-- ===== src/Daemon/Keys.antt =====
-- `HotkeyHandler`, `handleHoldEdge`, `hotkeyEventToSM` and `Toggle` of internal/infra/daemon/daemon.go: which events an
-- edge of the hotkey feeds to the state machine.
use a2text.Base.{
  ℕ, Option, none, some, List, [], ◌∷◌, Bool-cases, inl, inr, All, if◌then◌else◌, String,
}
use a2text.Domain.{State, Event}
use a2text.Daemon.Debounce.{accept_toggle}
use a2text.Daemon.HoldGate.{HoldGate, Dispatch, press_dispatch, stop_dispatch, on_press, on_release}
use a2text.Daemon.System.Steps.{IsUserEvent, user_toggle, user_start, user_stop}

-- `VoiceHotkeyMode`: the empty string, `unset`, means toggle.
pub data Mode : Type 0 where
  hold toggle unset : Mode
  other : String → Mode

pub data HotkeyEvent : Type 0 where
  press release : HotkeyEvent

-- `hotkeyEventToSM`
unfoldable pub hotkey_event_to_sm : HotkeyEvent → Mode → Option Event
hotkey_event_to_sm press hold = some Event.start
hotkey_event_to_sm release hold = some Event.stop
hotkey_event_to_sm press toggle = some Event.toggle
hotkey_event_to_sm press unset = some Event.toggle
hotkey_event_to_sm _ _ = none

-- The hold gate and `lastToggleAt`.
pub record Keys : Type 0 where
  pub gate : HoldGate
  pub last_toggle_at : Option ℕ

-- The event that a dispatch of the gate applies.
abbrev pub event_of : Dispatch → Event
event_of press_dispatch = Event.start
event_of stop_dispatch = Event.stop

abbrev pub events_of : List Dispatch → List Event
events_of [] = []
events_of (d ∷ ds) = event_of d ∷ events_of ds

-- `handleHoldEdge`, without the dispatch of the press, which comes later from the timer's goroutine.
unfoldable pub handle_hold_edge : HoldGate → HotkeyEvent → HoldGate × List Event
unfolding on_press on_release
handle_hold_edge g press = ((on_press g).0, [])
handle_hold_edge g release = let (g', out) = on_release g in (g', events_of out)

-- The debounce in front of a toggle.
unfoldable pub debounced : State → ℕ → ℕ → Keys → List Event × Option ℕ
unfolding accept_toggle
debounced s now stamp k =
    let (accepted, last) = accept_toggle s now stamp k.last_toggle_at in
    (if accepted then Event.toggle ∷ [] else [], last)

-- `HotkeyHandler`: the machine's state and the two readings of the clock are those that the debounce sees.
unfoldable pub hotkey_handler : Mode → State → ℕ → ℕ → Keys → HotkeyEvent → Keys × List Event
unfolding handle_hold_edge hotkey_event_to_sm debounced
hotkey_handler hold s now stamp k evt =
    let (g, out) = handle_hold_edge k.gate evt in (record k { gate = g }, out)
hotkey_handler mode s now stamp k evt = elim (hotkey_event_to_sm evt mode) [
  | none ↦ (k, [])
  | some Event.toggle ↦
      let (out, last) = debounced s now stamp k in (record k { last_toggle_at = last }, out)
  | some e ↦ (k, e ∷ [])
]

-- `Toggle`, from the tray.
unfoldable pub tray_toggle : State → ℕ → ℕ → Keys → Keys × List Event
unfolding debounced
tray_toggle s now stamp k =
    let (out, last) = debounced s now stamp k in (record k { last_toggle_at = last }, out)

debounced-IsUserEvent :
    (s : State) (now stamp : ℕ) (k : Keys) → All IsUserEvent (debounced s now stamp k).0
unfolding debounced
debounced-IsUserEvent s now stamp k =
    elim (Bool-cases (accept_toggle s now stamp k.last_toggle_at).0) [
      | inl accepted ↦ rw accepted (user_toggle, tt)
      | inr dropped ↦ rw dropped tt
    ]

events_of-IsUserEvent : (ds : List Dispatch) → All IsUserEvent (events_of ds)
events_of-IsUserEvent [] = tt
events_of-IsUserEvent (press_dispatch ∷ ds) = (user_start, events_of-IsUserEvent ds)
events_of-IsUserEvent (stop_dispatch ∷ ds) = (user_stop, events_of-IsUserEvent ds)

-- In every mode, an edge of the hotkey feeds the state machine toggles, starts and stops only, which are the events
-- that the daemon's threads take from a user.
pub hotkey_handler-IsUserEvent :
    (mode : Mode) (s : State) (now stamp : ℕ) (k : Keys) (evt : HotkeyEvent)
    → All IsUserEvent (hotkey_handler mode s now stamp k evt).1
unfolding hotkey_handler handle_hold_edge hotkey_event_to_sm
hotkey_handler-IsUserEvent hold s now stamp k press = tt
hotkey_handler-IsUserEvent hold s now stamp k release = events_of-IsUserEvent (on_release k.gate).1
hotkey_handler-IsUserEvent toggle s now stamp k press = debounced-IsUserEvent s now stamp k
hotkey_handler-IsUserEvent unset s now stamp k press = debounced-IsUserEvent s now stamp k
hotkey_handler-IsUserEvent toggle s now stamp k release = tt
hotkey_handler-IsUserEvent unset s now stamp k release = tt
hotkey_handler-IsUserEvent (other m) s now stamp k press = tt
hotkey_handler-IsUserEvent (other m) s now stamp k release = tt
