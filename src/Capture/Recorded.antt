-- ===== src/Capture/Recorded.antt =====
-- What the recorder promises of a recording, and how it stops the child (pkg/capture/subprocess_linux.go).
use a2text.Base.{
  false, not, ◌&&◌, Bool-cases, Option, Option-cases, none, some, [], ◌∷◌, ◌++◌, Text, String,
  codes, same_text, same_text-eq, is_empty, ◌≡◌, ◌≢◌, refl, sym, ap, ◌∙◌, subst, ◌⊎◌, inl, inr,
  arith,
}
use a2text.Base.Int.{ℤ, pos, ltb_ℤ}
use a2text.Capture.Process.{
  StopReason, Effect, Trace, First, Child, Stop, RunError, default_stop_grace, orchestrate_stop,
  signal_and_kill, after_wait, run,
}
use a2text.Capture.Record.{
  Options, Resolved, Temp, RecordError, from_temp, Recording, Machine, ext, ext_of, ensure_wav_ext,
  resolve_output_path, validate_options, record_to_file, ran, resolved, accepted,
}

-- How a run ends: the child does not start; it exits by itself, or the timer and the context do not end it; it ends
-- within the grace after the interrupt, which is a success; or it is killed, after the interrupt and the grace.
abbrev pub RunEnds : Child → ℤ → Trace → Option RunError × Trace → Type 0
RunEnds c grace tr r =
    ((e : String) × (c.start_error ≡ some e) × (r ≡ (some (RunError.start_failed e), tr)))
    ⊎ ((r.1 ≡ Effect.start ∷ tr) × ((r.0 ≡ none) ⊎ (c.exit_after r.1 ≢ none)))
    ⊎ (r ≡ (none, Effect.interrupt ∷ Effect.start ∷ tr))
    ⊎ ((r.1 ≡ Effect.kill ∷ Effect.interrupt ∷ Effect.start ∷ tr) × (c.in_grace grace ≡ false))

First-cases : (f : First) → (f ≡ First.exited) ⊎ (f ≡ First.timer_fired) ⊎ (f ≡ First.context_done)
First-cases First.exited = inl refl
First-cases First.timer_fired = inr (inl refl)
First-cases First.context_done = inr (inr refl)

-- How the stop of a child that has started ends.
abbrev StopEnds : Child → ℤ → Trace → Stop → Type 0
StopEnds c grace tr s =
    (s ≡ record { reason = StopReason.natural; wait_error = c.exit_after tr; trace = tr })
    ⊎ ((s.reason ≡ StopReason.graceful) × (s.trace ≡ Effect.interrupt ∷ tr))
    ⊎ ((s.reason ≡ StopReason.forced)
        × (s.trace ≡ Effect.kill ∷ Effect.interrupt ∷ tr)
        × (c.in_grace grace ≡ false))

signal_and_kill-StopEnds :
    (c : Child) (tr : Trace)
    → StopEnds c default_stop_grace tr (signal_and_kill c default_stop_grace tr)
unfolding signal_and_kill
signal_and_kill-StopEnds c tr = elim (Bool-cases (c.in_grace default_stop_grace)) [
  | inl e ↦ inr (inl (rw (signal_and_kill, e) (refl, refl)))
  | inr e ↦ inr (inr (rw (signal_and_kill, e) (refl, refl, refl)))
]

orchestrate_stop-StopEnds :
    (c : Child) (stop_after : ℤ) (tr : Trace)
    → StopEnds c default_stop_grace tr (orchestrate_stop c stop_after default_stop_grace tr)
unfolding orchestrate_stop
orchestrate_stop-StopEnds c stop_after tr =
    elim (Bool-cases (not (ltb_ℤ (pos 0) stop_after) && not c.has_done)) [
      | inl e ↦ rw (orchestrate_stop, e) (inl refl)
      | inr e ↦ elim (First-cases c.first) [
        | inl f ↦ rw (orchestrate_stop, e, f) (inl refl)
        | inr (inl f) ↦ rw (orchestrate_stop, e, f) (signal_and_kill-StopEnds c tr)
        | inr (inr f) ↦ rw (orchestrate_stop, e, f) (signal_and_kill-StopEnds c tr)
      ]
    ]

after_wait-RunEnds :
    (c : Child) (tr : Trace) (s : Stop)
    → StopEnds c default_stop_grace (Effect.start ∷ tr) s
    → RunEnds c default_stop_grace tr (after_wait c s)
unfolding after_wait
after_wait-RunEnds c tr s (inl e) =
    subst (λ (x : Stop). RunEnds c default_stop_grace tr (after_wait c x)) (sym e)
      (elim (Option-cases (c.exit_after (Effect.start ∷ tr))) [
        | inl h ↦ rw (after_wait, h) (inr (inl (refl, inl refl)))
        | inr (x, h) ↦ rw (after_wait, h) (inr (inl (refl, inr (λ n. ground arith))))
      ])
after_wait-RunEnds c tr s (inr (inl (r, t))) = inr (inr (inl (ground arith)))
after_wait-RunEnds c tr s (inr (inr (r, t, g))) = inr (inr (inr (ground arith, g)))

-- A run ends in one of four ways, and the child is killed only after the interrupt and the grace.
pub run-RunEnds :
    (c : Child) (stop_after : ℤ) (tr : Trace)
    → RunEnds c default_stop_grace tr (run c stop_after default_stop_grace tr)
unfolding run
run-RunEnds c stop_after tr = elim (Option-cases c.start_error) [
  | inr (e, h) ↦ inl (e, h, rw (run, h) refl)
  | inl h ↦
      let s = orchestrate_stop c stop_after default_stop_grace (Effect.start ∷ tr) in
      let same : run c stop_after default_stop_grace tr ≡ after_wait c s = rw (run, h) refl in
      subst (RunEnds c default_stop_grace tr) (sym same)
        (after_wait-RunEnds c tr s (orchestrate_stop-StopEnds c stop_after (Effect.start ∷ tr)))
]

ext_of-append : (t : Text) → ext_of (t ++ codes ".wav") ≡ some (codes ".wav")
unfolding ext_of
ext_of-append [] = refl
ext_of-append (c ∷ cs) = rw (ext_of-append cs) refl

-- A path that was asked for ends in .wav, and so does the path that is recorded to.
pub ext-ensure_wav_ext : (path : Text) → ext (ensure_wav_ext path) ≡ codes ".wav"
unfolding ensure_wav_ext ext
ext-ensure_wav_ext path = elim (Bool-cases (same_text (ext path) (codes ".wav"))) [
  | inl e ↦ rw (ensure_wav_ext, e) (same_text-eq (ext path) (codes ".wav") e)
  | inr e ↦ rw (ensure_wav_ext, e, ext, ext_of-append path) refl
]

-- What a result of the recorder says of its trace. A recording was validated last, and is not removed. A failure
-- leaves the trace only if the options are refused or no temporary file could be made; a temporary file that could not
-- be closed is left behind, and once the path is known the failure ends with its removal.
abbrev pub Keeps : Machine → Options → Trace → Recording × Trace → Type 0
Keeps m o before (Recording.recorded p, tr) =
    (tr' : Trace) × (tr ≡ Effect.validate p ∷ tr')
    × (m.validate tr p ≡ none)
    × (validate_options o ≡ none)
    × ((resolve_output_path o.output_path m.temp before).0 ≡ Resolved.at p)
Keeps m o before (Recording.failed e, tr) =
    ((tr ≡ before) × (validate_options o ≡ some e))
    ⊎ ((tr ≡ before)
        × (x : String) × (e ≡ RecordError.create_temp_failed x)
        × (m.temp ≡ Temp.not_created x))
    ⊎ ((p : Text) × (x : String) × (tr ≡ Effect.create_temp p ∷ before)
        × (e ≡ RecordError.close_temp_failed x)
        × (m.temp ≡ Temp.created p (some x)))
    ⊎ ((p : Text) × (tr' : Trace) × (tr ≡ Effect.remove p ∷ tr')
        × ((resolve_output_path o.output_path m.temp before).0 ≡ Resolved.at p))

ran-Keeps :
    (m : Machine) (o : Options) (before : Trace) (p : Text) (r : Option RunError × Trace)
    → validate_options o ≡ none
    → (resolve_output_path o.output_path m.temp before).0 ≡ Resolved.at p
    → Keeps m o before (ran m p r)
unfolding ran
ran-Keeps m o before p (some e, tr) v h = inr (inr (inr (p, tr, refl, h)))
ran-Keeps m o before p (none, tr) v h =
    elim (Option-cases (m.validate (Effect.validate p ∷ tr) p)) [
      | inl n ↦ rw (ran, n) (tr, refl, n, v, h)
      | inr (e, n) ↦ rw (ran, n) (inr (inr (inr (p, Effect.validate p ∷ tr, refl, h))))
    ]

-- Why there is no path, and the trace then.
abbrev Unresolves : Temp → Trace → RecordError → Trace → Type 0
Unresolves t before e tr =
    ((tr ≡ before)
      × (x : String) × (e ≡ RecordError.create_temp_failed x)
      × (t ≡ Temp.not_created x))
    ⊎ ((p : Text) × (x : String) × (tr ≡ Effect.create_temp p ∷ before)
        × (e ≡ RecordError.close_temp_failed x)
        × (t ≡ Temp.created p (some x)))

from_temp-Unresolves :
    (t : Temp) (before : Trace) (e : RecordError)
    → (from_temp t before).0 ≡ Resolved.unresolved e
    → Unresolves t before e (from_temp t before).1
unfolding from_temp
from_temp-Unresolves (Temp.not_created x) before e h = inl (refl, x, ground arith, refl)
from_temp-Unresolves (Temp.created p (some x)) before e h = inr (p, x, refl, ground arith, refl)
from_temp-Unresolves (Temp.created p none) before e h = ground arith

resolve_output_path-Unresolves :
    (requested : Text) (t : Temp) (before : Trace) (e : RecordError)
    → (resolve_output_path requested t before).0 ≡ Resolved.unresolved e
    → Unresolves t before e (resolve_output_path requested t before).1
unfolding resolve_output_path
resolve_output_path-Unresolves requested t before e h = elim (Bool-cases (is_empty requested)) [
  | inr n ↦ ground arith
  | inl n ↦
      let same : resolve_output_path requested t before ≡ from_temp t before =
        rw (resolve_output_path, n) refl in
      subst (λ (r : Resolved × Trace). Unresolves t before e r.1) (sym same)
        (from_temp-Unresolves t before e (ap (λ (r : Resolved × Trace). r.0) (sym same) ∙ h))
]

resolved-Keeps :
    (m : Machine) (o : Options) (before : Trace) (r : Resolved × Trace)
    → validate_options o ≡ none
    → resolve_output_path o.output_path m.temp before ≡ r
    → Keeps m o before (resolved m o r)
unfolding resolved
resolved-Keeps m o before (Resolved.at p, tr) v h =
    ran-Keeps m o before p _ v (ap (λ (r : Resolved × Trace). r.0) h)
resolved-Keeps m o before (Resolved.unresolved e, tr) v h =
    elim (subst (λ (r : Resolved × Trace). Unresolves m.temp before e r.1) h
      (resolve_output_path-Unresolves o.output_path m.temp before e
        (ap (λ (r : Resolved × Trace). r.0) h))) [ inl x ↦ inr (inl x) | inr x ↦ inr (inr (inl x)) ]

-- A path that is returned was validated last, without an error, and stays. A failure leaves the trace only if the
-- options are refused or no temporary file can be made; a temporary file that cannot be closed is left behind; and if
-- the recording fails once its path is known, that file is removed last.
pub record_to_file-Keeps :
    (m : Machine) (o : Options) (before : Trace) → Keeps m o before (record_to_file m o before)
unfolding record_to_file accepted
record_to_file-Keeps m o before = elim (Option-cases (validate_options o)) [
  | inr (e, h) ↦ rw (record_to_file, h, accepted) (inl (refl, h))
  | inl h ↦
      let same : record_to_file m o before
          ≡ resolved m o (resolve_output_path o.output_path m.temp before) =
        rw (record_to_file, h, accepted) refl in
      subst (Keeps m o before) (sym same) (resolved-Keeps m o before _ h refl)
]
