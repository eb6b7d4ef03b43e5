-- ===== src/Config/Schema.antt =====
-- `VoiceConfig` and its sections, and the errors of its validation (internal/infra/config/config.go). Durations are in
-- nanoseconds.
use a2text.Base.{◌*◌, ◌^◌, Bool, List, [], ◌∷◌, Text, codes}
use a2text.Base.Int.{ℤ, pos}

-- A float64, as far as the validation compares it with 0.
pub data Level : Type 0 where
  below zero_level above not_a_number : Level

pub record VoiceGoWhisperConfig : Type 0 where
  pub url : Text
  pub model : Text
  pub timeout : ℤ
  pub auto_download : Bool

pub record VoiceOpenAiConfig : Type 0 where
  pub api_key : Text
  pub base_url : Text
  pub model : Text

pub record VoiceDeepgramConfig : Type 0 where
  pub api_key : Text
  pub base_url : Text
  pub model : Text
  pub streaming : Bool

pub record VoiceCaptureConfig : Type 0 where
  pub backend : Text
  pub sample_rate : ℤ
  pub channels : ℤ
  pub max_duration : ℤ
  pub silence_threshold_dbfs : Level

pub record VoiceOutputConfig : Type 0 where
  pub mode : Text
  pub autopaste_command : Text
  pub restore_clipboard : Bool

pub record VoiceHotkeyConfig : Type 0 where
  pub key : Text
  pub modifiers : List Text
  pub mode : Text

pub record VoiceSttRetryConfig : Type 0 where
  pub initial_delay : ℤ
  pub max_delay : ℤ
  pub max_attempts : ℤ
  pub enabled : Bool

pub record VoiceDaemonConfig : Type 0 where
  pub shutdown_grace_period : ℤ

pub record VoicePrivacyConfig : Type 0 where
  pub keep_audio : Bool
  pub log_transcript : Bool
  pub keep_audio_dir : Text
  pub keep_audio_format : Text

pub record VoiceConfig : Type 0 where
  pub provider : Text
  pub language : Text
  pub ui_language : Text
  pub model_path : Text
  pub whisper_cpp_models_dir : Text
  pub go_whisper : VoiceGoWhisperConfig
  pub openai : VoiceOpenAiConfig
  pub deepgram : VoiceDeepgramConfig
  pub temp_dir : Text
  pub convert_timeout : ℤ
  pub transcribe_timeout : ℤ
  pub log_level : Text
  pub capture : VoiceCaptureConfig
  pub output : VoiceOutputConfig
  pub daemon : VoiceDaemonConfig
  pub hotkey : VoiceHotkeyConfig
  pub stt_retry : VoiceSttRetryConfig
  pub privacy : VoicePrivacyConfig

abbrev pub provider_go_whisper : Text
provider_go_whisper = codes "go-whisper"

abbrev pub provider_whisper_cpp : Text
provider_whisper_cpp = codes "whisper-cpp"

abbrev pub provider_openai : Text
provider_openai = codes "openai"

abbrev pub provider_deepgram : Text
provider_deepgram = codes "deepgram"

abbrev pub legacy_provider_deepgram_stream : Text
legacy_provider_deepgram_stream = codes "deepgram-stream"

abbrev pub output_modes : List Text
output_modes = codes "stdout" ∷ codes "clipboard" ∷ codes "clipboard_autopaste" ∷ []

abbrev pub autopaste_commands : List Text
autopaste_commands =
    codes "auto" ∷ codes "wtype" ∷ codes "ydotool" ∷ codes "xdotool" ∷ codes "uinput" ∷ []

abbrev pub capture_backends : List Text
capture_backends = codes "auto" ∷ codes "pipewire" ∷ codes "pulseaudio" ∷ []

abbrev pub log_levels : List Text
log_levels = codes "debug" ∷ codes "info" ∷ codes "warn" ∷ codes "error" ∷ []

abbrev pub keep_audio_formats : List Text
keep_audio_formats = codes "wav" ∷ codes "ogg" ∷ []

abbrev pub default_capture_sample_rate : ℤ
default_capture_sample_rate = pos 16000

abbrev pub default_daemon_shutdown_grace : ℤ
default_daemon_shutdown_grace = pos (15 * 10 ^ 9)

-- The configured URLs, by their names in the messages.
pub data UrlName : Type 0 where
  go_whisper_url openai_base_url deepgram_base_url : UrlName

pub data UrlError : Type 0 where
  not_a_url not_absolute not_http userinfo query fragment : UrlError

pub data ConfigError : Type 0 where
  nil_config : ConfigError
  unknown_output_mode unknown_autopaste_command unknown_log_level : ConfigError
  language_required language_whitespace language_pattern : ConfigError
  convert_timeout transcribe_timeout go_whisper_timeout : ConfigError
  bad_sample_rate bad_channels bad_max_duration bad_silence_threshold bad_backend : ConfigError
  bad_keep_audio_format unknown_provider : ConfigError
  go_whisper_url_required openai_key_required deepgram_key_required : ConfigError
  bad_url : UrlName → UrlError → ConfigError
