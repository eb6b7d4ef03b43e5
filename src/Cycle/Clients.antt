-- ===== src/Cycle/Clients.antt =====
-- The two command-line pipelines: internal/usecases/voice/record_oneshot.go, which wraps a cycle, and
-- internal/usecases/voice/transcribe_file.go.
use a2text.Base.{
  Bool, true, not, Option, none, some, ◌∷◌, String, Text, is_empty, trim_space, if◌then◌else◌,
}
use a2text.Base.Int.{ℤ, pos, ltb_ℤ}
use a2text.Cycle.World.{
  Answer, Effect, Trace, Transcriber, Output, World, Cause, CycleError, cycle_error, Result,
  CycleResult,
}
use a2text.Cycle.Pipeline.{cycle, then_do}

pub data OneshotError : Type 0 where
  duration_not_positive lang_empty : OneshotError
  cause : Cause → OneshotError
  as_is : CycleError → OneshotError

-- The error that `Run` makes of a cycle's.
unfoldable pub unwrapped : Result CycleResult → Option OneshotError
unwrapped (Result.ok r) = none
unwrapped (Result.err (cycle_error phase c)) = some (cause c)
unwrapped (Result.err e) = some (as_is e)

-- `RecordOneshotUseCase.Run`: `none` is success.
unfoldable pub run_oneshot : World → Trace → ℤ → Text → Option OneshotError × Trace
unfolding cycle unwrapped
run_oneshot w tr duration lang =
    let (result, tr') = cycle w tr true duration lang in
    if not (ltb_ℤ (pos 0) duration)
    then (some duration_not_positive, tr)
    else if is_empty (trim_space lang)
    then (some lang_empty, tr)
    else (unwrapped result, tr')

-- What `os.Stat` tells of an input.
pub data Stat : Type 0 where
  not_exist : Stat
  stat_failed : String → Stat
  exists : Bool → Stat

pub data FileError : Type 0 where
  file_not_found not_regular_file empty_result : FileError
  stat_error prepare_audio transcribe_error deliver_error : String → FileError

-- `checkRegularFile`
unfoldable pub check_regular_file : Stat → Option FileError
check_regular_file not_exist = some file_not_found
check_regular_file (stat_failed e) = some (stat_error e)
check_regular_file (exists regular) = if not regular then some not_regular_file else none

module _ (transcriber : Transcriber) (output : Output) where
  -- `Run` behind the conversion, less the deferred cleanup.
  unfoldable pub transcribe_converted : Trace → Text → Text → Option FileError × Trace
  transcribe_converted tr path lang =
      let heard = Effect.transcribe transcriber.name path lang ∷ tr in
      elim (transcriber.transcribe heard path lang) [
        | Answer.failed e ↦ (some (transcribe_error e), heard)
        | Answer.ok raw ↦
            let text = trim_space raw in
            let told = Effect.deliver output.name text ∷ heard in
            if is_empty text then (some empty_result, heard) else elim (output.deliver told text) [
              | some e ↦ (some (deliver_error e), told)
              | none ↦ (none, told)
            ]
      ]

  -- `TranscribeFileUseCase.Run`: `none` is success.
  unfoldable pub run_file :
      (Text → Stat) → (Trace → Text → Answer Text) → Trace → Text → Text → Option FileError × Trace
  unfolding check_regular_file transcribe_converted
  run_file stat to_wav tr path lang = elim (check_regular_file (stat path)) [
    | some e ↦ (some e, tr)
    | none ↦ elim (to_wav tr path) [
      | Answer.failed e ↦ (some (prepare_audio e), tr)
      | Answer.ok wav ↦
          then_do (λ t. Effect.cleanup wav ∷ t)
            (transcribe_converted (Effect.convert wav ∷ tr) wav lang)
    ]
  ]
