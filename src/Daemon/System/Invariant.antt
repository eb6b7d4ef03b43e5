-- ===== src/Daemon/System/Invariant.antt =====
-- What holds in every state that the daemon's threads reach, in whatever order they run
-- (internal/infra/daemon/cycle.go).
use a2text.Base.{
  ℕ, ◌≤◌, Bool, true, false, Option, none, some, List, [], ◌∷◌, ◌++◌, ◌≡◌, refl, ◌⊎◌, inl, inr,
  arith, Bool-cases,
}
use a2text.Domain.{State}
use a2text.Voice.Transition.{transition}
use a2text.Voice.Machine.{apply, apply_with_error, new_machine}
use a2text.Daemon.Completion.{
  Pc, running, success_transcribed, success_delivered, empty_result, failed_apply, cleanup, resume,
}
use a2text.Daemon.System.Steps.{
  System, new_system, end_cycle, cancel_cycle, Step, user, timer, act, returned, resumed,
  stopped_timer, ended, shut, shut_cancel, Reach, here, next,
}
use a2text.Daemon.System.Sound.{
  starts, Fits, Good, IsSound, starts-append, by_user, by_timer, feed-IsSound, sole, resumed-Fits,
  returned-Fits, act-IsSound, begin_shutdown-IsSound,
}

sole_of :
    (s : System) (before after : List Pc) (pc : Pc)
    → s.cycles ≡ before ++ (pc ∷ after)
    → IsSound s
    → (s.cycle_cancel ≡ true)
      × (before ≡ [])
      × (after ≡ [])
      × Fits pc s.machine.state (starts s.pending)
sole_of s before after pc e v =
    sole s.cycle_cancel before after pc s.machine.state (starts s.pending) (rw e at (v.good))

-- Each step keeps the invariant.
Step-IsSound : {s t : System} → Step s t → IsSound s → IsSound t
unfolding end_cycle cancel_cycle
Step-IsSound {s} (user o) v = feed-IsSound s (by_user o) v
Step-IsSound {s} (timer n e) v =
    feed-IsSound (record s { timers = n }) by_timer (record { good = v.good })
Step-IsSound {s} (act before after a e) v =
    act-IsSound (record s { pending = before ++ after }) a
      (rw (← starts-append before a after, ← e) v.good)
Step-IsSound {s} (returned before after r e) v =
    let (held, front, back, fits) = sole_of s before after running e v in
    record {
      good = rw (held, front, back) (returned-Fits r s.machine.state (starts s.pending) fits);
    }
Step-IsSound {s} (resumed before after pc e) v =
    let (held, front, back, fits) = sole_of s before after pc e v in
    record { good = rw (held, front, back) (resumed-Fits s.machine pc (starts s.pending) fits) }
Step-IsSound {s} (stopped_timer before after n e f) v = record { good = v.good }
Step-IsSound {s} (ended before after e) v =
    let (held, front, back, fits) = sole_of s before after cleanup e v in
    record { good = rw (front, back) fits }
Step-IsSound {s} shut v = begin_shutdown-IsSound s v
Step-IsSound {s} (shut_cancel e) v = elim (Bool-cases s.cycle_cancel) [
  | inl held ↦ record { good = rw held (rw held at (v.good)) }
  | inr free ↦ record { good = rw free (rw free at (v.good)) }
]

-- Every state that the threads reach from the start satisfies the invariant.
Reach-IsSound : {s : System} → Reach new_system s → IsSound s
unfolding new_system new_machine
Reach-IsSound here = record { good = ground arith }
Reach-IsSound (next r st) = Step-IsSound st (Reach-IsSound r)

-- In every state that the threads reach, at most one cycle goroutine exists, the cancel functions are
-- installed exactly while it does, and at most one start waits to be dispatched.
pub Reach-one_cycle :
    {s : System}
    → Reach new_system s
    → (((s.cycles ≡ []) × (s.cycle_cancel ≡ false))
        ⊎ ((pc : Pc) × (s.cycles ≡ pc ∷ []) × (s.cycle_cancel ≡ true)))
      × (starts s.pending ≤ 1)
Reach-one_cycle {s} r = go s.cycle_cancel s.cycles (Reach-IsSound r).good
  where
    below : (pc : Pc) (st : State) (n : ℕ) → Fits pc st n → n ≤ 1
    below pc st n g = ground arith

    go :
        (b : Bool) (cs : List Pc)
        → Good b cs s.machine.state (starts s.pending)
        → (((cs ≡ []) × (b ≡ false)) ⊎ ((pc : Pc) × (cs ≡ pc ∷ []) × (b ≡ true)))
          × (starts s.pending ≤ 1)
    go false [] g = (inl (refl, refl), g.0)
    go true (pc ∷ []) g = (inr (pc, refl, refl), below pc s.machine.state (starts s.pending) g)
    go false (pc ∷ cs) g = absurd g
    go true [] g = absurd g
    go true (pc ∷ pc' ∷ cs) g = absurd g

-- Where the last call of each completion path leads.
abbrev pub target : Pc → Option State
target success_transcribed = some State.delivering
target success_delivered = some State.idle
target empty_result = some State.idle
target (failed_apply msg) = some State.error
target _ = none

-- In every state that the threads reach, a goroutine that has passed its bridge out of recording is
-- not refused: its next call moves the machine to the state that the call is for, unless the daemon is
-- shutting down.
pub Reach-completion_accepted :
    {s : System} (pc : Pc) {goal : State}
    → Reach new_system s
    → s.cycles ≡ pc ∷ []
    → target pc ≡ some goal
    → ((resume s.machine pc).0.state ≡ goal) ⊎ (s.machine.state ≡ State.shutting_down)
unfolding resume apply apply_with_error transition
Reach-completion_accepted {s} pc r e t =
    let (held, front, back, fits) = sole_of s [] [] pc e (Reach-IsSound r) in ground arith
