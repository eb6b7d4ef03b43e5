-- ===== src/Examples/Daemon.antt =====
-- The daemon's threads (internal/infra/daemon) on concrete steps.
use a2text.Base.{◌≤◌, true, false, none, some, List, [], ◌∷◌, ◌≡◌, refl, ◌⊎◌, arith}
use a2text.Domain.{State, Event, Action, CyclePhase}
use a2text.Voice.Transition.{transition}
use a2text.Voice.Machine.{Machine, apply}
use a2text.Daemon.Completion.{
  Pc, result, failed, success_bridge, success_transcribed, cleanup, begin_completion, resume,
}
use a2text.Daemon.System.Steps.{
  System, new_system, dispatch, feed, end_cycle, user_toggle, user_stop, user, act, returned,
  resumed, Reach, here, next,
}
use a2text.Daemon.System.Sound.{starts}
use a2text.Daemon.System.Invariant.{Reach-one_cycle, Reach-completion_accepted}
use a2text.Daemon.System.Stuck.{
  IsStuck, after_record_failure, record_failure_sticks, early_restart_sticks,
}
use a2text.Daemon.Debounce.{Attempt, starts_of, IsSpaced, starts_of-IsSpaced}
use a2text.Daemon.Keys.{Keys}
use a2text.Daemon.HoldGate.{
  new_gate, new_threads, Op, press, arm, callback, release, send_press, send_stop, run, step,
  press_dispatch, stop_dispatch, decide, on_press, on_release, fire, presses_in, stops_in,
}
use a2text.Daemon.Turns.{IsSound, run-IsSound}

abbrev toggled : System
toggled = feed new_system Event.toggle

abbrev recording : System
recording = dispatch (record toggled { pending = [] }) Action.start_recording

abbrev reported : System
reported = record recording { cycles = begin_completion result ∷ [] }

abbrev bridged : System
bridged = record reported {
  machine = (resume reported.machine success_bridge).0;
  cycles = (resume reported.machine success_bridge).1 ∷ [];
}

bridged_reached : Reach new_system bridged
unfolding new_system feed dispatch begin_completion resume apply transition
bridged_reached =
    next
      (next (next (next here (user user_toggle)) (act [] [] Action.start_recording refl))
        (returned [] [] result refl))
      (resumed [] [] success_bridge refl)

Reach-one_cycle_example :
    (((bridged.cycles ≡ []) × (bridged.cycle_cancel ≡ false))
      ⊎ ((pc : Pc) × (bridged.cycles ≡ pc ∷ []) × (bridged.cycle_cancel ≡ true)))
    × (starts bridged.pending ≤ 1)
Reach-one_cycle_example = Reach-one_cycle bridged_reached

Reach-completion_accepted_example :
    ((resume bridged.machine success_transcribed).0.state ≡ State.delivering)
    ⊎ (bridged.machine.state ≡ State.shutting_down)
unfolding new_system feed dispatch begin_completion resume apply transition
Reach-completion_accepted_example =
    Reach-completion_accepted success_transcribed bridged_reached refl refl

-- The user stops the recording, and the recorder fails all the same.
abbrev asked : System
asked = feed recording Event.stop

abbrev acted : System
acted = dispatch (record asked { pending = [] }) Action.stop_recording

abbrev stopped : System
stopped = record acted {
  cycles = begin_completion (failed (some CyclePhase.record_phase) "no microphone") ∷ [];
}

stopped_reached : Reach new_system stopped
unfolding new_system feed dispatch begin_completion resume apply transition
stopped_reached =
    next
      (next
        (next (next (next here (user user_toggle)) (act [] [] Action.start_recording refl))
          (user user_stop))
        (act [] [] Action.stop_recording refl))
      (returned [] [] (failed (some CyclePhase.record_phase) "no microphone") refl)

record_failure_sticks_example : IsStuck (after_record_failure stopped "no microphone")
unfolding new_system feed dispatch begin_completion resume apply transition
record_failure_sticks_example =
    record_failure_sticks stopped (after_record_failure stopped "no microphone") "no microphone"
      refl refl here

abbrev restarted : System
restarted = record {
  machine = record { state = State.recording; last_err = "" };
  cycle_cancel = true;
  cycle_cancelled = false;
  record_cancelled = true;
  cycles = cleanup ∷ [];
  timers = 1;
  pending = Action.start_recording ∷ [];
}

abbrev left_alone : System
left_alone = end_cycle (dispatch (record restarted { pending = [] }) Action.start_recording) []

early_restart_sticks_example : IsStuck left_alone
early_restart_sticks_example = early_restart_sticks restarted left_alone refl refl refl refl here

abbrev hearing : Machine
hearing = record { state = State.transcribing; last_err = "" }

abbrev attempts : List Attempt
attempts =
    record { state = State.idle; now = 1000000000; stamp = 1000000001 }
    ∷ record { state = State.idle; now = 1100000000; stamp = 1100000001 }
    ∷ record { state = State.idle; now = 1600000000; stamp = 1600000001 }
    ∷ []

starts_of-IsSpaced_example : IsSpaced none (starts_of none attempts)
starts_of-IsSpaced_example = starts_of-IsSpaced none attempts (one, (two, (three, tt)))
  where
    one : 1000000000 ≤ 1000000001
    one = omega arith

    two : 1100000000 ≤ 1100000001
    two = omega arith

    three : 1600000000 ≤ 1600000001
    three = omega arith

abbrev ops : List Op
ops = press ∷ arm ∷ callback ∷ press ∷ release true ∷ send_stop ∷ send_press ∷ []

run-IsSound_example : IsSound (run new_threads ops)
unfolding presses_in stops_in
run-IsSound_example =
    run-IsSound new_threads ops
      (record { apart = refl; in_turn = refl; presses_are = refl; stops_are = refl })

-- The release comes between the callback's section and its dispatch: the daemon gets the stop before the press.
stop_before_press : (run new_threads ops).sent ≡ stop_dispatch ∷ press_dispatch ∷ []
unfolding run step decide on_press on_release fire presses_in stops_in
stop_before_press = refl

-- A callback that had fired when a tap's release came acts on the next press, while that press has its own timer to
-- come.
stale_callback :
    (run new_threads (press ∷ arm ∷ release false ∷ press ∷ callback ∷ send_press ∷ [])).sent
    ≡ press_dispatch ∷ []
unfolding run step decide on_press on_release fire presses_in stops_in
stale_callback = refl

abbrev keys : Keys
keys = record { gate = new_gate; last_toggle_at = some 1000000000 }
