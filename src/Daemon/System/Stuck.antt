-- ===== src/Daemon/System/Stuck.antt =====
-- Two ways in which the daemon's machine is left recording or transcribing with no cycle behind it
-- (internal/infra/daemon/cycle.go), and that nothing but a shutdown ends this.
use a2text.Base.{◌+◌, true, List, [], ◌∷◌, ◌++◌, ◌≡◌, refl, String, arith}
use a2text.Domain.{State, Event, Action}
use a2text.Voice.Transition.{transition}
use a2text.Voice.Machine.{apply, apply_with_error}
use a2text.Daemon.Completion.{Pc, failed_record, cleanup, resume}
use a2text.Daemon.System.Steps.{
  System, dispatch, feed, begin_shutdown, end_cycle, cancel_cycle, IsUserEvent, user_toggle,
  user_start, user_stop, Step, user, timer, act, returned, resumed, stopped_timer, ended, shut,
  shut_cancel, Reach, here, next,
}
use a2text.Daemon.System.Sound.{starts, is_start, starts-append, in_flight}

-- No goroutine will move the machine, no start waits, and the machine refuses a new one.
pub record IsStuck (s : System) : Type 0 where
  pub no_cycle : s.cycles ≡ []
  pub no_start : starts s.pending ≡ 0
  pub engaged : in_flight s.machine.state ≡ true

not_before : (before after : List Pc) (pc : Pc) → ¬ ([] ≡ before ++ (pc ∷ after))
not_before [] after pc e = cc
not_before (x ∷ before) after pc e = cc

no_goroutine :
    (s : System) (before after : List Pc) (pc : Pc)
    → IsStuck s
    → ¬ (s.cycles ≡ before ++ (pc ∷ after))
no_goroutine s before after pc k e = not_before before after pc (rw k.no_cycle at e)

feed-IsStuck_user : (s : System) {e : Event} → IsUserEvent e → IsStuck s → IsStuck (feed s e)
unfolding feed apply transition
feed-IsStuck_user s user_toggle k = ground arith
feed-IsStuck_user s user_start k = ground arith
feed-IsStuck_user s user_stop k = ground arith

feed-IsStuck_timer : (s : System) → IsStuck s → IsStuck (feed s Event.timeout)
unfolding feed apply transition
feed-IsStuck_timer s k = ground arith

dispatch-IsStuck : (s : System) (a : Action) → is_start a ≡ 0 → IsStuck s → IsStuck (dispatch s a)
unfolding dispatch cancel_cycle
dispatch-IsStuck s Action.start_recording z k = absurd (omega arith)
dispatch-IsStuck s _ z k = ground arith

act-IsStuck :
    (s : System) (before after : List Action) (a : Action)
    → s.pending ≡ before ++ (a ∷ after)
    → IsStuck s
    → IsStuck (dispatch (record s { pending = before ++ after }) a)
act-IsStuck s before after a e k =
    let waiting : is_start a + starts (before ++ after) ≡ 0 =
      rw (← starts-append before a after, ← e) k.no_start in
    dispatch-IsStuck (record s { pending = before ++ after }) a (omega arith)
      (record { no_cycle = k.no_cycle; no_start = omega arith; engaged = k.engaged })

begin_shutdown-IsStuck : (s : System) → IsStuck s → IsStuck (begin_shutdown s)
unfolding begin_shutdown apply transition
begin_shutdown-IsStuck s k = ground arith

cancel_cycle-IsStuck : (s : System) → IsStuck s → IsStuck (cancel_cycle s)
unfolding cancel_cycle
cancel_cycle-IsStuck s k = ground arith

Step-IsStuck : {s t : System} → Step s t → IsStuck s → IsStuck t
Step-IsStuck {s} (user o) k = feed-IsStuck_user s o k
Step-IsStuck {s} (timer n e) k =
    feed-IsStuck_timer (record s { timers = n })
      (record { no_cycle = k.no_cycle; no_start = k.no_start; engaged = k.engaged })
Step-IsStuck {s} (act before after a e) k = act-IsStuck s before after a e k
Step-IsStuck {s} (returned before after r e) k = absurd (no_goroutine s before after _ k e)
Step-IsStuck {s} (resumed before after pc e) k = absurd (no_goroutine s before after pc k e)
Step-IsStuck {s} (stopped_timer before after n e f) k =
    absurd (no_goroutine s before after cleanup k e)
Step-IsStuck {s} (ended before after e) k = absurd (no_goroutine s before after cleanup k e)
Step-IsStuck {s} shut k = begin_shutdown-IsStuck s k
Step-IsStuck {s} (shut_cancel e) k = cancel_cycle-IsStuck s k

-- A machine that is recording, transcribing or shutting down with no goroutine and no start that waits
-- stays so, with no goroutine, after any further steps of the threads.
Reach-IsStuck : {s t : System} → IsStuck s → Reach s t → IsStuck t
Reach-IsStuck k here = k
Reach-IsStuck k (next r st) = Step-IsStuck st (Reach-IsStuck k r)

-- The system after the only goroutine has reported a failure of the record phase and has ended.
abbrev pub after_record_failure : System → String → System
after_record_failure s msg =
    end_cycle (record s { machine = (resume s.machine (failed_record msg)).0; cycles = [] }) []

-- If the recorder fails after a stop has moved the machine to transcribing, the goroutine ends and the
-- daemon is stuck: from then on no thread's steps start a cycle or leave the states recording,
-- transcribing and shutting down.
pub record_failure_sticks :
    (s t : System) (msg : String)
    → s.machine.state ≡ State.transcribing
    → starts s.pending ≡ 0
    → Reach (after_record_failure s msg) t
    → IsStuck t
unfolding end_cycle resume apply_with_error transition
record_failure_sticks s t msg e z r =
    Reach-IsStuck (record { no_cycle = refl; no_start = z; engaged = ground arith }) r

-- If the user starts again after a goroutine has reported and before it has ended, `startCycle`
-- refuses, and once the goroutine has ended the daemon is stuck in the same way.
pub early_restart_sticks :
    (s t : System)
    → s.cycle_cancel ≡ true
    → s.cycles ≡ cleanup ∷ []
    → s.machine.state ≡ State.recording
    → s.pending ≡ Action.start_recording ∷ []
    → Reach (end_cycle (dispatch (record s { pending = [] }) Action.start_recording) []) t
    → IsStuck t
unfolding dispatch end_cycle
early_restart_sticks s t held one e p r =
    Reach-IsStuck (record { no_cycle = refl; no_start = ground arith; engaged = ground arith }) r
