-- ===== src/Cycle/Pipeline.antt =====
-- The phases of a cycle and `VoiceUseCase.Cycle` (internal/usecases/voice/voice.go and streaming.go). Each function
-- returns its result with the trace after it.
use a2text.Base.{
  ℕ, zero, suc, ◌+◌, ◌-◌, ◌*◌, ◌/◌, Bool, not, Option, none, some, ◌∷◌, Text, is_empty, trim_space,
  if◌then◌else◌,
}
use a2text.Base.Int.{ℤ, pos, negsuc, ltb_ℤ, wrap64}
use a2text.Domain.{record_phase, transcribe_phase, deliver_phase}
use a2text.Cycle.World.{
  Answer, Effect, Trace, StreamResult, Output, World, external, no_text, empty_path, not_regular,
  CycleError, nil_context, empty_lang, max_duration_not_positive, cycle_error, Result, CycleResult,
}

-- `ValidateCycleArgs`: the first check that fails.
unfoldable pub validate_cycle_args : Bool → ℤ → Text → Option CycleError
validate_cycle_args has_contexts max_duration lang =
    if not has_contexts
    then some nil_context
    else if is_empty (trim_space lang)
    then some empty_lang
    else if not (ltb_ℤ (pos 0) max_duration)
    then some max_duration_not_positive
    else none

-- `ValidateRecordedFile`
unfoldable pub validate_recorded_file : World → Trace → Text → Result ℕ
validate_recorded_file w tr path = elim (w.stat tr path) [
  | Answer.failed e ↦ Result.err (cycle_error record_phase (external e))
  | Answer.ok (regular, size) ↦
      if not regular then Result.err (cycle_error record_phase not_regular) else Result.ok size
]

-- Division of int64 by a positive constant, toward zero.
abbrev quotient : ℤ → ℕ → ℤ
quotient (pos n) d = pos (n / d)
quotient (negsuc n) d = elim ((n + 1) / d) [ zero ↦ pos 0 | suc q ↦ negsuc q ]

-- `EstimateAudioDuration`, in nanoseconds: the product with a second is an int64.
unfoldable pub estimate_audio_duration : ℕ → ℤ
estimate_audio_duration file_size = quotient (wrap64 (pos ((file_size - 44) * 1000000000))) 32000

-- `recordAndValidate`: the path and the size. The recorder has left a file at a path that it returns.
unfoldable pub record_and_validate : World → Trace → ℤ → Result (Text × ℕ) × Trace
unfolding validate_recorded_file
record_and_validate w tr max_duration =
    let tr' = Effect.record_to_file max_duration ∷ tr in
    elim (w.recorder tr' max_duration) [
      | Answer.failed e ↦ (Result.err (cycle_error record_phase (external e)), tr')
      | Answer.ok path ↦
          if is_empty path
          then (Result.err (cycle_error record_phase empty_path), tr')
          else let tr'' = Effect.recorded path ∷ tr' in
            elim (validate_recorded_file w tr'' path) [
              | Result.err e ↦ (Result.err e, tr'')
              | Result.ok size ↦ (Result.ok (path, size), Effect.validated path size ∷ tr'')
            ]
    ]

-- `runArchiver`: what the archiver returns is only logged.
unfoldable pub run_archiver : World → Trace → Text → Trace
run_archiver w tr path = if w.has_archiver then Effect.archive path ∷ tr else tr

-- `archiveAndCleanup`
unfoldable pub archive_and_cleanup : World → Trace → Text → Trace
unfolding run_archiver
archive_and_cleanup w tr path = Effect.remove path ∷ run_archiver w tr path

-- The end that both pipelines share, from a text to its delivery by the given output.
unfoldable pub deliver_text : World → Output → Trace → Text → ℕ → ℕ → Result CycleResult × Trace
unfolding estimate_audio_duration
deliver_text w out tr raw took size =
    let text = trim_space raw in
    let tr' = Effect.deliver out.name text ∷ tr in
    if is_empty text
    then (Result.err (cycle_error transcribe_phase no_text), tr)
    else elim (w.ctx_err tr) [
      | some e ↦ (Result.err (cycle_error deliver_phase (external e)), tr)
      | none ↦ elim (out.deliver tr' text) [
        | some e ↦ (Result.err (cycle_error deliver_phase (external e)), tr')
        | none ↦ (
          Result.ok (record {
            text = text;
            audio_duration = estimate_audio_duration size;
            stt_duration = took;
          }),
          tr',
        )
      ]
    ]

-- `transcribeAndDeliver`: the output is loaded before the transcription.
unfoldable pub transcribe_and_deliver : World → Trace → Text → ℕ → Text → Result CycleResult × Trace
unfolding deliver_text
transcribe_and_deliver w tr path size lang =
    let transcriber = w.transcriber tr in
    let out = w.output tr in
    let tr' = Effect.transcribe transcriber.name path lang ∷ tr in
    elim (transcriber.transcribe tr' path lang) [
      | Answer.failed e ↦ (Result.err (cycle_error transcribe_phase (external e)), tr')
      | Answer.ok raw ↦ deliver_text w out tr' raw (w.since tr') size
    ]

-- `finaliseStream`: the output is loaded after the stream has ended, whose error is only logged.
unfoldable pub finalise_stream :
    World → Trace → (Trace → Text → StreamResult) → Text → ℕ → Result CycleResult × Trace
unfolding deliver_text
finalise_stream w tr stream lang size =
    let tr' = Effect.join_stream ∷ tr in
    let result = stream tr' lang in
    elim (w.ctx_err tr) [
      | some e ↦ (Result.err (cycle_error transcribe_phase (external e)), tr')
      | none ↦ deliver_text w (w.output tr') tr' result.text result.took size
    ]

-- A deferred call behind a result.
abbrev pub then_do {ℓ} : {A : Type ℓ} → (Trace → Trace) → A × Trace → A × Trace
then_do f (a, tr) = (a, f tr)

-- The part of `sequentialCycle` that its deferred call follows.
unfoldable pub transcribe_unless_cancelled :
    World → Trace → Text → ℕ → Text → Result CycleResult × Trace
unfolding transcribe_and_deliver
transcribe_unless_cancelled w tr path size lang = elim (w.ctx_err tr) [
  | some e ↦ (Result.err (cycle_error transcribe_phase (external e)), tr)
  | none ↦ transcribe_and_deliver w tr path size lang
]

-- `sequentialCycle` behind the recording.
unfoldable pub sequential_rest :
    World → Text → Result (Text × ℕ) × Trace → Result CycleResult × Trace
unfolding archive_and_cleanup transcribe_unless_cancelled
sequential_rest w lang (Result.err e, tr) = (Result.err e, tr)
sequential_rest w lang (Result.ok (path, size), tr) =
    then_do (λ t. archive_and_cleanup w t path) (transcribe_unless_cancelled w tr path size lang)

-- `sequentialCycle`
unfoldable pub sequential_cycle : World → Trace → ℤ → Text → Result CycleResult × Trace
unfolding record_and_validate sequential_rest
sequential_cycle w tr max_duration lang =
    sequential_rest w lang (record_and_validate w tr max_duration)

-- `closeStreamSilently`; closing twice is harmless.
unfoldable pub close_stream_silently : Trace → Trace
close_stream_silently tr = Effect.close_pcm ∷ tr

-- `streamingCycle` behind the recording, less the last deferred call. Deferred calls run in the opposite order of
-- their `defer`.
unfoldable pub streaming_rest :
    World
    → (Trace → Text → StreamResult)
    → Text
    → Result (Text × ℕ) × Trace
    → Result CycleResult × Trace
unfolding archive_and_cleanup finalise_stream close_stream_silently
streaming_rest w stream lang (Result.err e, tr) =
    (Result.err e, Effect.join_stream ∷ close_stream_silently tr)
streaming_rest w stream lang (Result.ok (path, size), tr) =
    then_do (λ t. archive_and_cleanup w t path)
      (finalise_stream w (close_stream_silently (Effect.wait_tail_grace ∷ tr)) stream lang size)

-- `streamingCycle`
unfoldable pub streaming_cycle :
    World → Trace → ℕ → (Trace → Text → StreamResult) → ℤ → Text → Result CycleResult × Trace
unfolding record_and_validate streaming_rest close_stream_silently sequential_cycle
streaming_cycle w tr name stream max_duration lang = elim (w.start_streaming_pcm tr) [
  | some e ↦ sequential_cycle w (Effect.pcm_failed ∷ tr) max_duration lang
  | none ↦
      let begun =
        Effect.sleep_start_grace ∷ Effect.spawn_stream name lang ∷ Effect.start_pcm ∷ tr in
      then_do close_stream_silently
        (streaming_rest w stream lang (record_and_validate w begun max_duration))
]

-- `preSnapshotClipboard`
unfoldable pub pre_snapshot_clipboard : World → Trace → Trace
pre_snapshot_clipboard w tr =
    let out = w.output tr in if out.can_snapshot then Effect.pre_snapshot out.name ∷ tr else tr

-- `VoiceUseCase.Cycle`
unfoldable pub cycle : World → Trace → Bool → ℤ → Text → Result CycleResult × Trace
unfolding validate_cycle_args pre_snapshot_clipboard streaming_cycle sequential_cycle
cycle w tr has_contexts max_duration raw_lang =
    let lang = trim_space raw_lang in
    let tr' = pre_snapshot_clipboard w tr in
    let transcriber = w.transcriber tr' in
    elim (validate_cycle_args has_contexts max_duration lang) [
      | some e ↦ (Result.err e, tr)
      | none ↦ elim (transcriber.stream) [
        | some stream ↦ streaming_cycle w tr' transcriber.name stream max_duration lang
        | none ↦ sequential_cycle w tr' max_duration lang
      ]
    ]
