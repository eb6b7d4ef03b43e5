-- ===== src/Cycle/Ends.antt =====
-- How the command-line pipelines end (internal/usecases/voice/record_oneshot.go and transcribe_file.go), and the
-- archive of a cycle whose transcription failed.
use a2text.Base.{
  ℕ, ◌-◌, ◌*◌, ◌≤◌, true, false, Bool-cases, Option, Option-cases, none, some, List, [], ◌∷◌, Text,
  String, ◌≡◌, ◌≢◌, refl, ap, sym, subst, ◌∙◌, inl, inr, arith, is_empty, trim_space,
  trim_space-trim_space,
}
use a2text.Base.Int.{ℤ, pos, ltb_ℤ}
use a2text.Domain.{record_phase, deliver_phase, transcribe_phase}
use a2text.Cycle.World.{
  Answer, Answer-cases, Effect, Trace, Transcriber, Output, World, external, cycle_error,
  nil_context, empty_lang, max_duration_not_positive, CycleError, Result, CycleResult,
}
use a2text.Cycle.Pipeline.{
  record_and_validate, archive_and_cleanup, run_archiver, transcribe_and_deliver,
  transcribe_unless_cancelled, then_do, sequential_rest, sequential_cycle, validate_cycle_args,
  cycle, estimate_audio_duration,
}
use a2text.Cycle.Delivery.{deliveries, IsClear, Promise, CycleKeeps, cycle-Keeps}
use a2text.Cycle.Clients.{
  duration_not_positive, lang_empty, as_is, unwrapped, run_oneshot, Stat, FileError, file_not_found,
  not_regular_file, empty_result, stat_error, prepare_audio, transcribe_error, deliver_error,
  check_regular_file, transcribe_converted, run_file,
}

-- A conversion that has not been cleaned up.
abbrev pub open_conversion : Trace → Option Text
open_conversion [] = none
open_conversion (Effect.convert p ∷ tr) = some p
open_conversion (Effect.cleanup p ∷ tr) = none
open_conversion (_ ∷ tr) = open_conversion tr

-- What the error of a run says of the deliveries before and after.
abbrev FilePromise : Option FileError → List Text → List Text → Type 0
FilePromise none before after = (t : Text) × IsClear t × (after ≡ t ∷ before)
FilePromise (some (deliver_error e)) before after = (t : Text) × IsClear t × (after ≡ t ∷ before)
FilePromise (some _) before after = after ≡ before

abbrev pub FileKeeps : Option FileError × Trace → List Text → Type 0
FileKeeps (result, tr) before = FilePromise result before (deliveries tr)

module _ (transcriber : Transcriber) (output : Output) where
  transcribe_converted-FileKeeps :
      (tr : Trace) (path lang : Text)
      → FileKeeps (transcribe_converted transcriber output tr path lang) (deliveries tr)
  unfolding transcribe_converted
  transcribe_converted-FileKeeps tr path lang =
      elim (Answer-cases (transcriber.transcribe heard path lang)) [
        | inr (x, e) ↦ rw (transcribe_converted, e) refl
        | inl (raw, e) ↦ elim (Bool-cases (is_empty (trim_space raw))) [
          | inl nothing ↦ rw (transcribe_converted, e, nothing) refl
          | inr full ↦
              elim (Option-cases (
                output.deliver (Effect.deliver output.name (trim_space raw) ∷ heard)
                  (trim_space raw))) [
                    | inl d ↦ rw (transcribe_converted, e, full, d) (_, clear raw full, refl)
                    | inr (x, d) ↦ rw (transcribe_converted, e, full, d) (_, clear raw full, refl)
                  ]
        ]
      ]
    where
      heard : Trace
      heard = Effect.transcribe transcriber.name path lang ∷ tr

      clear : (raw : Text) → is_empty (trim_space raw) ≡ false → IsClear (trim_space raw)
      clear raw e = record { trimmed = trim_space-trim_space raw; something = e }

  -- `Run` succeeds only when it has handed one trimmed, non-empty text to the output; it hands over the same when the
  -- output refuses, and nothing on any other error. Whatever it converted it has cleaned up.
  pub run_file-FileKeeps :
      (stat : Text → Stat) (to_wav : Trace → Text → Answer Text) (tr : Trace) (path lang : Text)
      → open_conversion tr ≡ none
      → FileKeeps (run_file transcriber output stat to_wav tr path lang) (deliveries tr)
        × (open_conversion (run_file transcriber output stat to_wav tr path lang).1 ≡ none)
  unfolding run_file check_regular_file
  run_file-FileKeeps stat to_wav tr path lang h =
      elim (Option-cases (check_regular_file (stat path))) [
        | inr (x, e) ↦ rw (run_file, e) (refused (stat path) x e, h)
        | inl e ↦ elim (Answer-cases (to_wav tr path)) [
          | inr (x, c) ↦ rw (run_file, e, c) (refl, h)
          | inl (wav, c) ↦
              rw (run_file, e, c)
                (transcribe_converted-FileKeeps (Effect.convert wav ∷ tr) wav lang, refl)
        ]
      ]
    where
      refused :
          (s : Stat) (x : FileError)
          → check_regular_file s ≡ some x
          → FilePromise (some x) (deliveries tr) (deliveries tr)
      refused s (deliver_error m) e = ground arith
      refused s file_not_found e = refl
      refused s not_regular_file e = refl
      refused s empty_result e = refl
      refused s (stat_error m) e = refl
      refused s (prepare_audio m) e = refl
      refused s (transcribe_error m) e = refl

unwrapped_bare :
    (r : Result CycleResult) (before after : List Text) (e : CycleError)
    → Promise r before after
    → unwrapped r ≢ some (as_is e)
unfolding unwrapped
unwrapped_bare (Result.ok r) before after e k h = ground arith
unwrapped_bare (Result.err (cycle_error deliver_phase x)) before after e k h = ground arith
unwrapped_bare (Result.err (cycle_error record_phase x)) before after e k h = ground arith
unwrapped_bare (Result.err (cycle_error transcribe_phase x)) before after e k h = ground arith
unwrapped_bare (Result.err nil_context) before after e k h = k
unwrapped_bare (Result.err empty_lang) before after e k h = k
unwrapped_bare (Result.err max_duration_not_positive) before after e k h = k

validate_cycle_args_pass :
    (duration : ℤ) (lang : Text)
    → ltb_ℤ (pos 0) duration ≡ true
    → is_empty (trim_space lang) ≡ false
    → validate_cycle_args true duration (trim_space lang) ≡ none
unfolding validate_cycle_args
validate_cycle_args_pass duration lang g s =
    rw (validate_cycle_args, trim_space-trim_space lang, s, g) refl

-- The checks in front of the cycle leave it no error but those of a phase, so that a failed cycle's cause is returned
-- bare.
pub run_oneshot_bare :
    (w : World) (tr : Trace) (duration : ℤ) (lang : Text) (e : CycleError)
    → (run_oneshot w tr duration lang).0 ≢ some (as_is e)
unfolding run_oneshot
run_oneshot_bare w tr duration lang e h = elim (Bool-cases (ltb_ℤ (pos 0) duration)) [
  | inr bad ↦ cc (h, short bad)
  | inl good ↦ elim (Bool-cases (is_empty (trim_space lang))) [
    | inl nothing ↦ cc (h, blank good nothing)
    | inr something ↦
        unwrapped_bare (ran.0) _ _ e
          (subst (λ o. CycleKeeps o ran tr) (validate_cycle_args_pass duration lang good something)
            (cycle-Keeps w tr true duration lang))
          (sym (through good something) ∙ h)
  ]
]
  where
    ran : Result CycleResult × Trace
    ran = cycle w tr true duration lang

    short :
        ltb_ℤ (pos 0) duration ≡ false
        → (run_oneshot w tr duration lang).0 ≡ some duration_not_positive
    short b = rw (run_oneshot, b) refl

    blank :
        ltb_ℤ (pos 0) duration ≡ true
        → is_empty (trim_space lang) ≡ true
        → (run_oneshot w tr duration lang).0 ≡ some lang_empty
    blank g b = rw (run_oneshot, g, b) refl

    through :
        ltb_ℤ (pos 0) duration ≡ true
        → is_empty (trim_space lang) ≡ false
        → (run_oneshot w tr duration lang).0 ≡ unwrapped (ran.0)
    through g b = rw (run_oneshot, g, b) refl

-- A recording that the transcriber fails on is archived all the same, before it is removed.
pub transcription_failed_archives :
    (w : World) (tr : Trace) (max : ℤ) (lang path : Text) (size : ℕ) (e : String) {tr' : Trace}
    → w.has_archiver ≡ true
    → record_and_validate w tr max ≡ (Result.ok (path, size), tr')
    → w.ctx_err tr' ≡ none
    → (let heard = Effect.transcribe (w.transcriber tr').name path lang ∷ tr' in
        (w.transcriber tr').transcribe heard path lang ≡ Answer.failed e)
    → sequential_cycle w tr max lang ≡ (
      Result.err (cycle_error transcribe_phase (external e)),
      Effect.remove path
          ∷ Effect.archive path
          ∷ Effect.transcribe (w.transcriber tr').name path lang
          ∷ tr',
    )
unfolding sequential_cycle sequential_rest transcribe_unless_cancelled transcribe_and_deliver
    archive_and_cleanup run_archiver
transcription_failed_archives w tr max lang path size e {tr'} a r c t =
    ap (sequential_rest w lang) r
    ∙ rw
        (
          sequential_rest, then_do, transcribe_unless_cancelled, c, transcribe_and_deliver, t,
          archive_and_cleanup, run_archiver, a,
        )
        refl

-- The estimate of a duration is exact in nanoseconds for every file of less than 9 GB.
estimate_audio_duration_lem :
    (size : ℕ)
    → 44 ≤ size
    → size ≤ 9000000000
    → estimate_audio_duration size ≡ pos ((size - 44) * 31250)
unfolding estimate_audio_duration
estimate_audio_duration_lem size a b = ground arith
