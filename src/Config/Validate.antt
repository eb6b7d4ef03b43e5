-- ===== src/Config/Validate.antt =====
-- `ValidateVoice` and the checks that it runs (internal/infra/config/config.go).
use mathlib.Core.Option.{or_else}
use a2text.Base.{
  ℕ, not, Option, none, some, Text, is_empty, one_of, same_text, if◌then◌else◌, ◌||◌, Bool, true,
  false,
}
use a2text.Base.Int.{pos, ltb_ℤ}
use a2text.Config.Schema.{
  Level, above, VoiceConfig, provider_go_whisper, provider_whisper_cpp, provider_openai,
  provider_deepgram, output_modes, autopaste_commands, capture_backends, log_levels,
  keep_audio_formats, go_whisper_url, openai_base_url, deepgram_base_url, ConfigError, nil_config,
  unknown_output_mode, unknown_autopaste_command, unknown_log_level, convert_timeout,
  transcribe_timeout, go_whisper_timeout, bad_sample_rate, bad_channels, bad_max_duration,
  bad_silence_threshold, bad_backend, bad_keep_audio_format, unknown_provider,
  go_whisper_url_required, openai_key_required, deepgram_key_required,
}
use a2text.Config.Normal.{fold_text, migrate_legacy_voice_provider, normalize_voice_config}
use a2text.Config.Url.{Url, validate_http_url}
use a2text.Config.Language.{validate_voice_language}

unfoldable pub validate_voice_output : VoiceConfig → Option ConfigError
validate_voice_output c =
    if not (one_of c.output.mode output_modes)
    then some unknown_output_mode
    else if not (one_of c.output.autopaste_command autopaste_commands)
    then some unknown_autopaste_command
    else none

unfoldable pub validate_voice_log_level : VoiceConfig → Option ConfigError
validate_voice_log_level c =
    if is_empty c.log_level || one_of c.log_level log_levels then none else some unknown_log_level

unfoldable pub validate_voice_timeouts : VoiceConfig → Option ConfigError
validate_voice_timeouts c =
    if not (ltb_ℤ (pos 0) c.convert_timeout)
    then some convert_timeout
    else if not (ltb_ℤ (pos 0) c.transcribe_timeout)
    then some transcribe_timeout
    else if not (ltb_ℤ (pos 0) c.go_whisper.timeout)
    then some go_whisper_timeout
    else none

-- `f > 0`
unfoldable pub is_above : Level → Bool
is_above above = true
is_above _ = false

unfoldable pub validate_voice_privacy : VoiceConfig → Option ConfigError
validate_voice_privacy c =
    if one_of c.privacy.keep_audio_format keep_audio_formats
    then none
    else some bad_keep_audio_format

-- `model_path` is not required.
unfoldable pub validate_voice_whisper_cpp : VoiceConfig → Option ConfigError
validate_voice_whisper_cpp c = none

-- `shutdown_grace_period` is not checked.
unfoldable pub validate_voice_daemon : VoiceConfig → Option ConfigError
validate_voice_daemon c = none

module _ (to_lower : ℕ → ℕ) where
  unfoldable pub validate_voice_capture : VoiceConfig → Option ConfigError
  unfolding is_above
  validate_voice_capture c =
      if not (ltb_ℤ (pos 0) c.capture.sample_rate)
      then some bad_sample_rate
      else if not (ltb_ℤ (pos 0) c.capture.channels)
      then some bad_channels
      else if ltb_ℤ c.capture.max_duration (pos 0)
      then some bad_max_duration
      else if is_above c.capture.silence_threshold_dbfs
      then some bad_silence_threshold
      else if is_empty (fold_text to_lower c.capture.backend)
          || one_of (fold_text to_lower c.capture.backend) capture_backends
      then none
      else some bad_backend

module _ (parse : Text → Option Url) where
  unfoldable pub validate_voice_go_whisper : VoiceConfig → Option ConfigError
  validate_voice_go_whisper c =
      if is_empty c.go_whisper.url
      then some go_whisper_url_required
      else validate_http_url parse go_whisper_url c.go_whisper.url

  unfoldable pub validate_voice_openai : VoiceConfig → Option ConfigError
  validate_voice_openai c =
      if is_empty c.openai.api_key
      then some openai_key_required
      else if is_empty c.openai.base_url
      then none
      else validate_http_url parse openai_base_url c.openai.base_url

  unfoldable pub validate_voice_deepgram : VoiceConfig → Option ConfigError
  validate_voice_deepgram c =
      if is_empty c.deepgram.api_key
      then some deepgram_key_required
      else if is_empty c.deepgram.base_url
      then none
      else validate_http_url parse deepgram_base_url c.deepgram.base_url

  unfoldable pub validate_voice_provider : VoiceConfig → Option ConfigError
  unfolding validate_voice_go_whisper validate_voice_openai validate_voice_deepgram
      validate_voice_whisper_cpp
  validate_voice_provider c =
      if same_text c.provider provider_go_whisper
      then validate_voice_go_whisper c
      else if same_text c.provider provider_whisper_cpp
      then validate_voice_whisper_cpp c
      else if same_text c.provider provider_openai
      then validate_voice_openai c
      else if same_text c.provider provider_deepgram
      then validate_voice_deepgram c
      else some unknown_provider

module _ (to_lower : ℕ → ℕ) (parse : Text → Option Url) where
  -- The checks of `validateVoice` on a normalised configuration: the first error is returned.
  unfoldable pub first_error : VoiceConfig → Option ConfigError
  unfolding or_else validate_voice_daemon
  first_error c = or_else (validate_voice_output c) (
      or_else (validate_voice_log_level c) (
        or_else (validate_voice_language c.language) (
          or_else (validate_voice_timeouts c) (
            or_else (validate_voice_capture to_lower c) (
              or_else (validate_voice_daemon c)
                (or_else (validate_voice_privacy c) (validate_voice_provider parse c)))))))

  -- The error, and the configuration as it is left.
  unfoldable pub check_voice : VoiceConfig → Option ConfigError × VoiceConfig
  unfolding first_error
  check_voice c =
      (first_error (normalize_voice_config to_lower c), normalize_voice_config to_lower c)

  -- `ValidateVoice` of a configuration, and of nil too.
  unfoldable pub validate_config : VoiceConfig → Option ConfigError × VoiceConfig
  unfolding check_voice
  validate_config c = check_voice (migrate_legacy_voice_provider c)

  unfoldable pub validate_voice : Option VoiceConfig → Option ConfigError × Option VoiceConfig
  unfolding validate_config
  validate_voice none = (some nil_config, none)
  validate_voice (some c) = let r = validate_config c in (r.0, some r.1)
