-- ===== src/Factory/Build.antt =====
-- `Build` and the builders behind it (internal/infra/factory/transcriber.go, whisper_enabled.go, whisper_disabled.go).
-- What loading a model answers, and the build tag, are parameters.
use a2text.Base.{
  Bool, not, ◌&&◌, Option, none, some, Text, String, is_empty, same_text, if◌then◌else◌,
}
use a2text.Config.Schema.{
  provider_go_whisper, provider_whisper_cpp, provider_openai, provider_deepgram,
}
use a2text.Stt.Retry.{RetryConfig}

-- The fields of the factory's `Config` that decide what is built.
pub record BuildConfig : Type 0 where
  pub provider : Text
  pub openai_api_key : Text
  pub deepgram_api_key : Text
  pub deepgram_streaming : Bool
  pub cloud_enabled : Bool
  pub model_path : Text
  pub stub_mode : Bool
  pub eager_load_model : Bool

-- What is built: a client, two of them, or a client with retries.
pub data Transcriber : Type 0 where
  go_whisper whisper_cpp openai deepgram deepgram_stream : Transcriber
  with_fallback : Transcriber → Transcriber → Transcriber
  retrying retrying_streaming : RetryConfig → Transcriber → Transcriber

pub data BuildError : Type 0 where
  nil_config unknown_provider openai_key deepgram_key needs_whisper_tag no_cloud_key : BuildError
  model_not_ready model_not_loaded : String → BuildError

pub data Made : Type 0 where
  made : Transcriber → Made
  refused : BuildError → Made

-- The answers of `LoadModelCtx` and of `LoadModel`, and whether the build has the tag `whisper`.
pub record Models : Type 0 where
  pub go_whisper_error : Option String
  pub whisper_error : Option String
  pub whisper_tag : Bool

unfoldable pub build_openai : BuildConfig → Made
build_openai c =
    if is_empty c.openai_api_key
    then Made.refused BuildError.openai_key
    else Made.made Transcriber.openai

unfoldable pub build_deepgram_stream : BuildConfig → Made
build_deepgram_stream c =
    if is_empty c.deepgram_api_key
    then Made.refused BuildError.deepgram_key
    else Made.made Transcriber.deepgram_stream

unfoldable pub build_deepgram : BuildConfig → Made
build_deepgram c =
    if is_empty c.deepgram_api_key
    then Made.refused BuildError.deepgram_key
    else Made.made Transcriber.deepgram

-- None is a nil transcriber without an error.
unfoldable pub pick_cloud_fallback : BuildConfig → Option Made
unfolding build_openai build_deepgram
pick_cloud_fallback c =
    if not (is_empty c.openai_api_key)
    then some (build_openai c)
    else if not (is_empty c.deepgram_api_key)
    then some (build_deepgram c)
    else none

-- The first before the fallback that was picked.
before : Transcriber → Option Made → Made
before t none = Made.made t
before t (some (Made.refused e)) = Made.refused e
before t (some (Made.made u)) = Made.made (Transcriber.with_fallback t u)

after_load : BuildConfig → Option String → Made
unfolding before
after_load c (some e) = Made.refused (BuildError.model_not_ready e)
after_load c none =
    if c.cloud_enabled
    then before Transcriber.go_whisper (pick_cloud_fallback c)
    else Made.made Transcriber.go_whisper

unfoldable pub build_go_whisper : Models → BuildConfig → Made
unfolding after_load
build_go_whisper m c = after_load c (if c.eager_load_model then m.go_whisper_error else none)

or_no_key : Option Made → Made
or_no_key none = Made.refused BuildError.no_cloud_key
or_no_key (some r) = r

unfoldable pub build_cloud_fallback : BuildConfig → Made
unfolding or_no_key pick_cloud_fallback
build_cloud_fallback c = or_no_key (pick_cloud_fallback c)

loaded_whisper : BuildConfig → Option String → Made
unfolding before
loaded_whisper c (some e) =
    if c.stub_mode
    then (if c.cloud_enabled then build_cloud_fallback c else Made.made Transcriber.whisper_cpp)
    else Made.refused (BuildError.model_not_loaded e)
loaded_whisper c none =
    if not c.cloud_enabled
    then Made.made Transcriber.whisper_cpp
    else before Transcriber.whisper_cpp (some (build_cloud_fallback c))

-- `buildWhisperCpp`, with and without the build tag.
unfoldable pub build_whisper_cpp : Models → BuildConfig → Made
unfolding loaded_whisper
build_whisper_cpp m c =
    if not m.whisper_tag
    then Made.refused BuildError.needs_whisper_tag
    else if c.cloud_enabled && is_empty c.model_path
    then build_cloud_fallback c
    else loaded_whisper c m.whisper_error

unfoldable pub build : Models → BuildConfig → Made
build m c =
    if same_text c.provider provider_go_whisper
    then build_go_whisper m c
    else if same_text c.provider provider_whisper_cpp
    then build_whisper_cpp m c
    else if same_text c.provider provider_openai
    then build_openai c
    else if same_text c.provider provider_deepgram
    then (if c.deepgram_streaming then build_deepgram_stream c else build_deepgram c)
    else Made.refused BuildError.unknown_provider
