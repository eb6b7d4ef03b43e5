-- ===== src/Factory/Wiring.antt =====
-- `BuildTranscriber`, its retries and `BuildConverter` (internal/infra/factory/voice_transcriber.go).
use a2text.Base.{
  ◌*◌, ◌^◌, Bool, true, false, not, Option, none, some, [], ◌∷◌, Text, is_empty, one_of, same_text,
  if◌then◌else◌,
}
use a2text.Base.Int.{ℤ, pos, ltb_ℤ}
use a2text.Config.Schema.{
  VoiceConfig, VoiceSttRetryConfig, provider_go_whisper, provider_whisper_cpp, provider_openai,
  provider_deepgram,
}
use a2text.Stt.Retry.{RetryConfig}
use a2text.Factory.Build.{BuildConfig, Transcriber, BuildError, Made, Models, build}

abbrev pub default_retry_max_attempts : ℤ
default_retry_max_attempts = pos 2

abbrev pub default_retry_initial_delay : ℤ
default_retry_initial_delay = pos (200 * 10 ^ 6)

abbrev pub default_retry_max_delay : ℤ
default_retry_max_delay = pos (5 * 10 ^ 9)

unfoldable pub or_default : ℤ → ℤ → ℤ
or_default n d = if ltb_ℤ (pos 0) n then n else d

unfoldable pub retry_config : VoiceSttRetryConfig → RetryConfig
unfolding or_default
retry_config c = record {
  max_attempts = or_default c.max_attempts default_retry_max_attempts;
  initial_delay = or_default c.initial_delay default_retry_initial_delay;
  max_delay = or_default c.max_delay default_retry_max_delay;
}

-- Whether a transcriber is `StreamCapable`.
unfoldable pub is_stream : Transcriber → Bool
is_stream Transcriber.deepgram_stream = true
is_stream (Transcriber.retrying_streaming c t) = true
is_stream _ = false

unfoldable pub wrap_with_retry : Transcriber → VoiceSttRetryConfig → Transcriber
unfolding retry_config
wrap_with_retry inner c =
    if is_stream inner
    then Transcriber.retrying_streaming (retry_config c) inner
    else Transcriber.retrying (retry_config c) inner

-- The fields that `BuildTranscriberWithAudit` copies.
unfoldable pub build_config_of : VoiceConfig → BuildConfig
build_config_of c = record {
  provider = c.provider;
  openai_api_key = c.openai.api_key;
  deepgram_api_key = c.deepgram.api_key;
  deepgram_streaming = c.deepgram.streaming;
  cloud_enabled = false;
  model_path = c.model_path;
  stub_mode = false;
  eager_load_model = false;
}

unfoldable pub wrapped : VoiceConfig → Made → Made
wrapped c (Made.refused e) = Made.refused e
wrapped c (Made.made t) =
    Made.made (if not c.stt_retry.enabled then t else wrap_with_retry t c.stt_retry)

unfoldable pub build_transcriber : Models → Option VoiceConfig → Made
unfolding wrapped build_config_of
build_transcriber m none = Made.refused BuildError.nil_config
build_transcriber m (some c) = wrapped c (build m (build_config_of c))

-- A converter, with the directory of ffmpeg's results.
pub data Converter : Type 0 where
  passthrough : Converter
  ffmpeg : Text → ℤ → Converter
  no_config bad_convert_timeout unknown_provider : Converter

unfoldable pub resolve_temp_dir : Text → Text → Text → Text
resolve_temp_dir override cfg_temp_dir system =
    if not (is_empty override)
    then override
    else if not (is_empty cfg_temp_dir)
    then cfg_temp_dir
    else system

unfoldable pub build_converter : Option VoiceConfig → Text → Text → Converter
build_converter none temp_dir system = Converter.no_config
build_converter (some c) temp_dir system =
    if one_of c.provider (provider_go_whisper ∷ provider_openai ∷ provider_deepgram ∷ [])
    then Converter.passthrough
    else if same_text c.provider provider_whisper_cpp
    then (if not (ltb_ℤ (pos 0) c.convert_timeout)
        then Converter.bad_convert_timeout
        else Converter.ffmpeg (resolve_temp_dir temp_dir c.temp_dir system) c.convert_timeout)
    else Converter.unknown_provider
