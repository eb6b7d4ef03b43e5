-- ===== src/Daemon/HoldGate.antt =====
-- `holdGate` of internal/infra/daemon/hold_gate.go: a press is dispatched only if no release follows within the minimum
-- duration. Each section under the mutex is one step; what its caller dispatches comes later, in a step of its own.
use a2text.Base.{
  ℕ, suc, ◌+◌, ◌-◌, Bool, true, false, ◌||◌, ◌&&◌, List, [], ◌∷◌, ◌++◌, ltb, if◌then◌else◌,
}

pub record HoldGate : Type 0 where
  pub pending : Bool
  pub started : Bool

abbrev pub new_gate : HoldGate
new_gate = record { pending = false; started = false }

-- What the daemon dispatches: the press, from the timer's goroutine, and the stop, from the listener's.
pub data Dispatch : Type 0 where
  press_dispatch stop_dispatch : Dispatch

-- `OnPress` under the mutex, and whether it goes on to create a timer.
unfoldable pub on_press : HoldGate → HoldGate × Bool
on_press g = if g.started || g.pending then (g, false) else (record g { pending = true }, true)

-- The callback of a timer under the mutex, and what it dispatches behind it.
unfoldable pub fire : HoldGate → HoldGate × List Dispatch
fire g =
    if g.pending
    then (record g { pending = false; started = true }, press_dispatch ∷ [])
    else (g, [])

-- `OnRelease`, and what its caller dispatches behind it.
unfoldable pub on_release : HoldGate → HoldGate × List Dispatch
on_release g =
    if g.pending
    then (record g { pending = false }, [])
    else if g.started
    then (record g { started = false }, stop_dispatch ∷ [])
    else (g, [])

unfoldable pub presses_in : List Dispatch → ℕ
presses_in [] = 0
presses_in (press_dispatch ∷ ds) = suc (presses_in ds)
presses_in (stop_dispatch ∷ ds) = presses_in ds

unfoldable pub stops_in : List Dispatch → ℕ
stops_in [] = 0
stops_in (press_dispatch ∷ ds) = stops_in ds
stops_in (stop_dispatch ∷ ds) = suc (stops_in ds)

-- The gate among its goroutines: the presses that still have to create their timer, the callbacks that may still run,
-- of live timers and of timers that had fired when `Stop` came, and the dispatches that are decided and not yet made.
-- `decided` has the decisions in the order of the mutex, `sent` the dispatches in the order in which they are made.
pub record Threads : Type 0 where
  pub gate : HoldGate
  pub arming : ℕ
  pub callbacks : ℕ
  pub presses : ℕ
  pub stops : ℕ
  pub decided : List Dispatch
  pub sent : List Dispatch

abbrev pub new_threads : Threads
new_threads = record {
  gate = new_gate;
  arming = 0;
  callbacks = 0;
  presses = 0;
  stops = 0;
  decided = [];
  sent = [];
}

-- `release` says whether `Stop` comes before the timer has fired.
pub data Op : Type 0 where
  press arm callback send_press send_stop : Op
  release : Bool → Op

-- A decision of the mutex.
unfoldable pub decide : Threads → HoldGate × List Dispatch → Threads
decide t (g, out) = record t {
  gate = g;
  decided = t.decided ++ out;
  presses = t.presses + presses_in out;
  stops = t.stops + stops_in out;
}

unfoldable pub step : Threads → Op → Threads
unfolding on_press on_release fire decide
step t press =
    let (g, arms) = on_press t.gate in
    record t { gate = g; arming = if arms then suc t.arming else t.arming }
step t arm =
    if ltb 0 t.arming then record t { arming = t.arming - 1; callbacks = suc t.callbacks } else t
step t callback =
    if ltb 0 t.callbacks then decide (record t { callbacks = t.callbacks - 1 }) (fire t.gate) else t
step t (release in_time) =
    decide
      (record t { callbacks = if t.gate.pending && in_time then t.callbacks - 1 else t.callbacks })
      (on_release t.gate)
step t send_press =
    if ltb 0 t.presses
    then record t { presses = t.presses - 1; sent = t.sent ++ (press_dispatch ∷ []) }
    else t
step t send_stop =
    if ltb 0 t.stops
    then record t { stops = t.stops - 1; sent = t.sent ++ (stop_dispatch ∷ []) }
    else t

unfoldable pub run : Threads → List Op → Threads
unfolding step
run t [] = t
run t (o ∷ os) = run (step t o) os
