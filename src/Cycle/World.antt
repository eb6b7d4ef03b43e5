-- ===== src/Cycle/World.antt =====
-- What a dictation cycle (internal/usecases/voice/voice.go) calls and does. Its effects are logged in a trace, the
-- latest first. The recorder, the backends, the outputs, the archiver, the file system, the clock and the context
-- answer each call as a function of the trace up to that call, so that they may answer differently each time.
use a2text.Base.{ℕ, Bool, Option, List, Text, String, ◌≡◌, refl, ◌⊎◌, inl, inr}
use a2text.Base.Int.{ℤ}
use a2text.Domain.{CyclePhase}

-- An error of a dependency stands for itself by its text.
pub data Answer {ℓ} (A : Type ℓ) : Type ℓ where
  ok : A → Answer A
  failed : String → Answer A

pub Answer-cases {ℓ} :
    {A : Type ℓ} (r : Answer A) → ((a : A) × (r ≡ ok a)) ⊎ ((e : String) × (r ≡ failed e))
Answer-cases (ok a) = inl (a, refl)
Answer-cases (failed e) = inr (e, refl)

-- Transcribers and outputs are numbered, since they can be swapped.
pub data Effect : Type 0 where
  pre_snapshot : ℕ → Effect
  record_to_file : ℤ → Effect
  recorded : Text → Effect
  validated : Text → ℕ → Effect
  start_pcm pcm_failed close_pcm : Effect
  spawn_stream : ℕ → Text → Effect
  join_stream sleep_start_grace wait_tail_grace : Effect
  transcribe : ℕ → Text → Text → Effect
  deliver : ℕ → Text → Effect
  archive remove : Text → Effect
  convert cleanup : Text → Effect

abbrev pub Trace : Type 0
Trace = List Effect

-- `streamResult`: the text may be partial, with an error beside it.
pub record StreamResult : Type 0 where
  pub text : Text
  pub error : Option String
  pub took : ℕ

-- `Transcriber`, with `Stream` if it is a `StreamingTranscriber` too.
pub record Transcriber : Type 0 where
  pub name : ℕ
  pub transcribe : Trace → Text → Text → Answer Text
  pub stream : Option (Trace → Text → StreamResult)

-- `Output`, and whether it is a `clipboardPreSnapshotter`.
pub record Output : Type 0 where
  pub name : ℕ
  pub deliver : Trace → Text → Option String
  pub can_snapshot : Bool

-- `transcriber` and `output` are the atomic pointers as a load at that time reads them. `stat` tells whether the
-- file is regular, and its size; `since` is what `time.Since` measures of the call that the trace ends with.
pub record World : Type 0 where
  pub transcriber : Trace → Transcriber
  pub output : Trace → Output
  pub has_archiver : Bool
  pub recorder : Trace → ℤ → Answer Text
  pub stat : Trace → Text → Answer (Bool × ℕ)
  pub start_streaming_pcm : Trace → Option String
  pub ctx_err : Trace → Option String
  pub since : Trace → ℕ

pub data Cause : Type 0 where
  external : String → Cause
  no_text empty_path not_regular : Cause

-- The first three are `ValidateCycleArgs`'s.
pub data CycleError : Type 0 where
  nil_context empty_lang max_duration_not_positive : CycleError
  cycle_error : CyclePhase → Cause → CycleError

pub data Result {ℓ} (A : Type ℓ) : Type ℓ where
  ok : A → Result A
  err : CycleError → Result A

pub record CycleResult : Type 0 where
  pub text : Text
  pub audio_duration : ℤ
  pub stt_duration : ℕ
