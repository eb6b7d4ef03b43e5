-- ===== src/Settings/Shown.antt =====
-- The settings that the window shows, key by key as `VoiceConfig` names them (internal/infra/config/config.go), and where a
-- saved file has them.
use a2text.Base.{
  Bool, true, ◌||◌, some, List, [], ◌∷◌, ◌++◌, Text, is_empty, codes, one_of, ◌≡◌, ◌⊎◌,
  if◌then◌else◌,
}
use a2text.Base.Int.{ℤ}
use a2text.Config.Schema.{VoiceConfig}
use a2text.Config.Keys.{is_tolerated}
use a2text.Settings.Document.{Entries, get}
use a2text.Settings.Save.{
  Value, leaf, text, number, flag, decimal, texts, split_trimmed, join_commas,
}
use a2text.Settings.Saved.{value_at}
use a2text.Settings.Tolerated.{inside, is_stale}

-- A section of a document shows the settings of a configuration; a key that is empty in the window is as it was.
pub record ShowsOpenai {X : Type 0} (duration : ℤ → Text) (c : VoiceConfig)
    (before doc : Entries (Value X)) : Type 0 where
  pub base_url_is : value_at (codes "openai") (codes "base_url") doc ≡ some (text c.openai.base_url)
  pub model_is : value_at (codes "openai") (codes "model") doc ≡ some (text c.openai.model)
  pub api_key_is : value_at (codes "openai") (codes "api_key") doc ≡ (
      if is_empty c.openai.api_key
      then value_at (codes "openai") (codes "api_key") before
      else some (text c.openai.api_key))

pub record ShowsDeepgram {X : Type 0} (duration : ℤ → Text) (c : VoiceConfig)
    (before doc : Entries (Value X)) : Type 0 where
  pub base_url_is :
      value_at (codes "deepgram") (codes "base_url") doc ≡ some (text c.deepgram.base_url)
  pub model_is : value_at (codes "deepgram") (codes "model") doc ≡ some (text c.deepgram.model)
  pub streaming_is :
      value_at (codes "deepgram") (codes "streaming") doc ≡ some (flag c.deepgram.streaming)
  pub api_key_is : value_at (codes "deepgram") (codes "api_key") doc ≡ (
      if is_empty c.deepgram.api_key
      then value_at (codes "deepgram") (codes "api_key") before
      else some (text c.deepgram.api_key))

pub record ShowsGoWhisper {X : Type 0} (duration : ℤ → Text) (c : VoiceConfig)
    (before doc : Entries (Value X)) : Type 0 where
  pub url_is : value_at (codes "go_whisper") (codes "url") doc ≡ some (text c.go_whisper.url)
  pub model_is : value_at (codes "go_whisper") (codes "model") doc ≡ some (text c.go_whisper.model)
  pub timeout_is :
      value_at (codes "go_whisper") (codes "timeout") doc
      ≡ some (text (duration c.go_whisper.timeout))
  pub auto_download_is :
      value_at (codes "go_whisper") (codes "auto_download") doc
      ≡ some (flag c.go_whisper.auto_download)

pub record ShowsHotkey {X : Type 0} (duration : ℤ → Text) (c : VoiceConfig)
    (before doc : Entries (Value X)) : Type 0 where
  pub key_is : value_at (codes "hotkey") (codes "key") doc ≡ some (text c.hotkey.key)
  pub mode_is : value_at (codes "hotkey") (codes "mode") doc ≡ some (text c.hotkey.mode)
  pub modifiers_is :
      value_at (codes "hotkey") (codes "modifiers") doc
      ≡ some (texts (split_trimmed (join_commas c.hotkey.modifiers)))

pub record ShowsOutput {X : Type 0} (duration : ℤ → Text) (c : VoiceConfig)
    (before doc : Entries (Value X)) : Type 0 where
  pub mode_is : value_at (codes "output") (codes "mode") doc ≡ some (text c.output.mode)
  pub autopaste_command_is :
      value_at (codes "output") (codes "autopaste_command") doc
      ≡ some (text c.output.autopaste_command)
  pub restore_clipboard_is :
      value_at (codes "output") (codes "restore_clipboard") doc
      ≡ some (flag c.output.restore_clipboard)

pub record ShowsCapture {X : Type 0} (duration : ℤ → Text) (c : VoiceConfig)
    (before doc : Entries (Value X)) : Type 0 where
  pub backend_is : value_at (codes "capture") (codes "backend") doc ≡ some (text c.capture.backend)
  pub sample_rate_is :
      value_at (codes "capture") (codes "sample_rate") doc ≡ some (number c.capture.sample_rate)
  pub channels_is :
      value_at (codes "capture") (codes "channels") doc ≡ some (number c.capture.channels)
  pub max_duration_is :
      value_at (codes "capture") (codes "max_duration") doc
      ≡ some (text (duration c.capture.max_duration))
  pub silence_threshold_dbfs_is :
      value_at (codes "capture") (codes "silence_threshold_dbfs") doc
      ≡ some (decimal c.capture.silence_threshold_dbfs)

pub record ShowsDaemon {X : Type 0} (duration : ℤ → Text) (c : VoiceConfig)
    (before doc : Entries (Value X)) : Type 0 where
  pub shutdown_grace_period_is :
      value_at (codes "daemon") (codes "shutdown_grace_period") doc
      ≡ some (text (duration c.daemon.shutdown_grace_period))

pub record ShowsSttRetry {X : Type 0} (duration : ℤ → Text) (c : VoiceConfig)
    (before doc : Entries (Value X)) : Type 0 where
  pub enabled_is :
      value_at (codes "stt_retry") (codes "enabled") doc ≡ some (flag c.stt_retry.enabled)
  pub initial_delay_is :
      value_at (codes "stt_retry") (codes "initial_delay") doc
      ≡ some (text (duration c.stt_retry.initial_delay))
  pub max_delay_is :
      value_at (codes "stt_retry") (codes "max_delay") doc
      ≡ some (text (duration c.stt_retry.max_delay))
  pub max_attempts_is :
      value_at (codes "stt_retry") (codes "max_attempts") doc
      ≡ some (number c.stt_retry.max_attempts)

pub record ShowsPrivacy {X : Type 0} (duration : ℤ → Text) (c : VoiceConfig)
    (before doc : Entries (Value X)) : Type 0 where
  pub log_transcript_is :
      value_at (codes "privacy") (codes "log_transcript") doc ≡ some (flag c.privacy.log_transcript)
  pub keep_audio_is :
      value_at (codes "privacy") (codes "keep_audio") doc ≡ some (flag c.privacy.keep_audio)
  pub keep_audio_dir_is :
      value_at (codes "privacy") (codes "keep_audio_dir") doc ≡ some (text c.privacy.keep_audio_dir)
  pub keep_audio_format_is :
      value_at (codes "privacy") (codes "keep_audio_format") doc
      ≡ some (text c.privacy.keep_audio_format)

pub record ShowsOthers {X : Type 0} (duration : ℤ → Text) (c : VoiceConfig)
    (before doc : Entries (Value X)) : Type 0 where
  pub provider_is : get (codes "provider") doc ≡ some (leaf (text c.provider))
  pub language_is : get (codes "language") doc ≡ some (leaf (text c.language))
  pub model_path_is : get (codes "model_path") doc ≡ some (leaf (text c.model_path))
  pub whisper_cpp_models_dir_is :
      get (codes "whisper_cpp_models_dir") doc ≡ some (leaf (text c.whisper_cpp_models_dir))
  pub temp_dir_is : get (codes "temp_dir") doc ≡ some (leaf (text c.temp_dir))
  pub convert_timeout_is :
      get (codes "convert_timeout") doc ≡ some (leaf (text (duration c.convert_timeout)))
  pub transcribe_timeout_is :
      get (codes "transcribe_timeout") doc ≡ some (leaf (text (duration c.transcribe_timeout)))
  pub log_level_is : get (codes "log_level") doc ≡ some (leaf (text c.log_level))

abbrev pub outside_keys : List Text
outside_keys =
    codes "provider"
    ∷ codes "language"
    ∷ codes "model_path"
    ∷ codes "whisper_cpp_models_dir"
    ∷ codes "temp_dir"
    ∷ codes "convert_timeout"
    ∷ codes "transcribe_timeout"
    ∷ codes "log_level"
    ∷ []

-- A path that the loader knows or that is stale, or whose first part is a setting outside the sections.
unfoldable pub is_ours : Text → Text → Bool
is_ours name key =
    one_of name outside_keys || is_tolerated (name ++ 46 ∷ key) || is_stale (inside name key)

-- All of them, and every other path within the sections is as it was.
pub record Shows {X : Type 0} (duration : ℤ → Text) (c : VoiceConfig)
    (before doc : Entries (Value X)) : Type 0 where
  pub openai : ShowsOpenai duration c before doc
  pub deepgram : ShowsDeepgram duration c before doc
  pub go_whisper : ShowsGoWhisper duration c before doc
  pub hotkey : ShowsHotkey duration c before doc
  pub output : ShowsOutput duration c before doc
  pub capture : ShowsCapture duration c before doc
  pub daemon : ShowsDaemon duration c before doc
  pub stt_retry : ShowsSttRetry duration c before doc
  pub privacy : ShowsPrivacy duration c before doc
  pub others : ShowsOthers duration c before doc
  pub rest :
      (name key : Text)
      → (is_ours name key ≡ true) ⊎ (value_at name key doc ≡ value_at name key before)
