-- ===== src/Daemon/System/Sound.antt =====
-- The invariant of the daemon's shared state (internal/infra/daemon/cycle.go): who may be in flight,
-- and in which state the machine is then; and the parts of a step that keep it.
use a2text.Base.{
  ℕ, ◌+◌, ◌≤◌, ◌<◌, Bool, true, false, none, some, List, [], ◌∷◌, ◌++◌, ◌≡◌, refl, arith,
  if◌then◌else◌,
}
use a2text.Domain.{State, Event, Action}
use a2text.Voice.Transition.{transition}
use a2text.Voice.Machine.{Machine, apply, apply_with_error}
use a2text.Daemon.Completion.{
  Pc, CycleReturn, running, success_transcribed, success_delivered, empty_result, failed_apply,
  cleanup, begin_completion, resume,
}
use a2text.Daemon.System.Steps.{
  System, dispatch, feed, begin_shutdown, IsUserEvent, user_toggle, user_start, user_stop,
}

-- A cycle's audio is being recorded or transcribed, or the daemon goes down.
abbrev pub in_flight : State → Bool
in_flight State.recording = true
in_flight State.transcribing = true
in_flight State.shutting_down = true
in_flight _ = false

abbrev past_recording : State → Bool
past_recording State.transcribing = true
past_recording State.shutting_down = true
past_recording _ = false

abbrev delivering_or_down : State → Bool
delivering_or_down State.delivering = true
delivering_or_down State.shutting_down = true
delivering_or_down _ = false

abbrev pub is_start : Action → ℕ
is_start Action.start_recording = 1
is_start _ = 0

-- How many starts wait to be dispatched.
abbrev pub starts : List Action → ℕ
starts [] = 0
starts (a ∷ rest) = is_start a + starts rest

-- A start that waits finds the machine where it left it, or further on.
abbrev MayStart : State → ℕ → Type 0
MayStart st n = (n ≤ 1) × (0 < n → in_flight st ≡ true)

-- What the place of the goroutine says of the machine's state and of the starts that wait.
abbrev pub Fits : Pc → State → ℕ → Type 0
Fits cleanup st n = MayStart st n
Fits success_transcribed st n = (n ≡ 0) × (past_recording st ≡ true)
Fits empty_result st n = (n ≡ 0) × (past_recording st ≡ true)
Fits (failed_apply msg) st n = (n ≡ 0) × (past_recording st ≡ true)
Fits success_delivered st n = (n ≡ 0) × (delivering_or_down st ≡ true)
Fits _ st n = (n ≡ 0) × (in_flight st ≡ true)

-- No goroutine and no cancel function, or one of each.
abbrev pub Good : Bool → List Pc → State → ℕ → Type 0
Good false [] st n = MayStart st n
Good true (pc ∷ []) st n = Fits pc st n
Good _ _ st n = ⊥

pub record IsSound (s : System) : Type 0 where
  pub good : Good s.cycle_cancel s.cycles s.machine.state (starts s.pending)

pub starts-append :
    (xs : List Action) (a : Action) (ys : List Action)
    → starts (xs ++ (a ∷ ys)) ≡ is_start a + starts (xs ++ ys)
starts-append [] a ys = refl
starts-append (x ∷ xs) a ys = omega (arith, starts-append xs a ys)

-- The user's events and the timer's, on the machine's state and on the starts.
abbrev fed_state : State → Event → State
fed_state st e = elim (transition st e).error [ none ↦ (transition st e).state | some x ↦ st ]

abbrev fed_starts : State → Event → ℕ → ℕ
fed_starts st e n = elim (transition st e).error [
  | none ↦ is_start (transition st e).action + n
  | some x ↦ n
]

-- An event that the user or the timer feeds.
pub data IsOutside : Event → Type 0 where
  by_user : {e : Event} → IsUserEvent e → IsOutside e
  by_timer : IsOutside Event.timeout

fed-Fits :
    (pc : Pc) (st : State) {e : Event} (n : ℕ)
    → IsOutside e
    → Fits pc st n
    → Fits pc (fed_state st e) (fed_starts st e n)
unfolding transition
fed-Fits pc st n (by_user user_toggle) g = ground arith
fed-Fits pc st n (by_user user_start) g = ground arith
fed-Fits pc st n (by_user user_stop) g = ground arith
fed-Fits pc st n by_timer g = ground arith

fed-Good :
    (b : Bool) (cs : List Pc) (st : State) {e : Event} (n : ℕ)
    → IsOutside e
    → Good b cs st n
    → Good b cs (fed_state st e) (fed_starts st e n)
fed-Good false [] st n o g = fed-Fits cleanup st n o g
fed-Good true (pc ∷ []) st n o g = fed-Fits pc st n o g
fed-Good false (pc ∷ cs) st n o g = absurd g
fed-Good true [] st n o g = absurd g
fed-Good true (pc ∷ pc' ∷ cs) st n o g = absurd g

feed-fed_state : (s : System) (e : Event) → (feed s e).machine.state ≡ fed_state s.machine.state e
unfolding feed apply
feed-fed_state s e = ground arith

feed-fed_starts :
    (s : System) (e : Event)
    → starts (feed s e).pending ≡ fed_starts s.machine.state e (starts s.pending)
unfolding feed apply
feed-fed_starts s e = ground arith

feed_same :
    (s : System) (e : Event)
    → ((feed s e).cycle_cancel ≡ s.cycle_cancel) × ((feed s e).cycles ≡ s.cycles)
unfolding feed
feed_same s e = (refl, refl)

pub feed-IsSound : (s : System) {e : Event} → IsOutside e → IsSound s → IsSound (feed s e)
feed-IsSound s {e} o v = record {
  good =
      rw (feed-fed_state s e, feed-fed_starts s e, (feed_same s e).0, (feed_same s e).1)
        (fed-Good s.cycle_cancel s.cycles s.machine.state (starts s.pending) o v.good);
}

-- A goroutine that is anywhere in the list is the only one.
pub sole :
    (b : Bool) (before after : List Pc) (pc : Pc) (st : State) (n : ℕ)
    → Good b (before ++ (pc ∷ after)) st n
    → (b ≡ true) × (before ≡ []) × (after ≡ []) × Fits pc st n
sole true [] [] pc st n g = (refl, refl, refl, g)
sole false [] after pc st n g = absurd g
sole true [] (x ∷ after) pc st n g = absurd g
sole false (x ∷ before) after pc st n g = absurd g
sole true (x ∷ []) after pc st n g = absurd g
sole true (x ∷ y ∷ before) after pc st n g = absurd g

pub resumed-Fits :
    (m : Machine) (pc : Pc) (n : ℕ)
    → Fits pc m.state n
    → Fits (resume m pc).1 (resume m pc).0.state n
unfolding resume apply apply_with_error transition
resumed-Fits m running n g = g
resumed-Fits m _ n g = ground arith

pub returned-Fits :
    (r : CycleReturn) (st : State) (n : ℕ) → Fits running st n → Fits (begin_completion r) st n
unfolding begin_completion
returned-Fits r st n g = ground arith

down-Fits : (pc : Pc) (st : State) (n : ℕ) → Fits pc st n → Fits pc (fed_state st Event.shutdown) n
unfolding transition
down-Fits pc st n g = ground arith

start-Good :
    (b : Bool) (cs : List Pc) (st : State) (n : ℕ)
    → Good b cs st (1 + n)
    → Good true (if b then cs else running ∷ cs) st n
start-Good false [] st n g = ground arith
start-Good true (pc ∷ []) st n g = start-Fits pc st n g
  where
    start-Fits : (p : Pc) (t : State) (k : ℕ) → Fits p t (1 + k) → Fits p t k
    start-Fits p t k f = ground arith
start-Good false (pc ∷ cs) st n g = absurd g
start-Good true [] st n g = absurd g
start-Good true (pc ∷ pc' ∷ cs) st n g = absurd g

-- `dispatch` of an action that no longer waits.
pub act-IsSound :
    (s : System) (a : Action)
    → Good s.cycle_cancel s.cycles s.machine.state (is_start a + starts s.pending)
    → IsSound (dispatch s a)
unfolding dispatch
act-IsSound s Action.start_recording g = record {
  good = ground (arith, start-Good s.cycle_cancel s.cycles s.machine.state (starts s.pending) g);
}
act-IsSound s Action.stop_recording g = record { good = ground arith }
act-IsSound s Action.discard_audio g = record { good = ground arith }
act-IsSound s Action.none g = record { good = ground arith }
act-IsSound s Action.finish_cycle g = record { good = ground arith }
act-IsSound s Action.shutdown_now g = record { good = ground arith }
act-IsSound s Action.unset g = record { good = ground arith }

down-Good :
    (b : Bool) (cs : List Pc) (st : State) (n : ℕ)
    → Good b cs st n
    → Good b cs (fed_state st Event.shutdown) n
down-Good false [] st n g = down-Fits cleanup st n g
down-Good true (pc ∷ []) st n g = down-Fits pc st n g
down-Good false (pc ∷ cs) st n g = absurd g
down-Good true [] st n g = absurd g
down-Good true (pc ∷ pc' ∷ cs) st n g = absurd g

begin_shutdown-state :
    (s : System) → (begin_shutdown s).machine.state ≡ fed_state s.machine.state Event.shutdown
unfolding begin_shutdown apply
begin_shutdown-state s = ground arith

pub begin_shutdown-IsSound : (s : System) → IsSound s → IsSound (begin_shutdown s)
unfolding begin_shutdown
begin_shutdown-IsSound s v = record {
  good =
      rw (begin_shutdown-state s)
        (down-Good s.cycle_cancel s.cycles s.machine.state (starts s.pending) v.good);
}
