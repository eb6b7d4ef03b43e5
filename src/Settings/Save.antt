-- ===== src/Settings/Save.antt =====
-- `SaveConfig` and `applyToMap` (internal/adapters/settings/save.go). The file system, the YAML library and the text of
-- a duration are parameters. A map in the file has scalars and one level of sections; `kept` is any other value.
use a2text.Base.{
  ◌==◌, Bool, Option, none, some, List, [], ◌∷◌, ◌++◌, Text, String, is_empty, codes, trim_space,
  if◌then◌else◌,
}
use a2text.Base.Int.{ℤ}
use a2text.Config.Schema.{Level, VoiceConfig}
use a2text.Settings.Document.{Entries, Edit, set, unset, run, get, put}

pub data Leaf (X : Type 0) : Type 0 where
  text : Text → Leaf X
  number : ℤ → Leaf X
  flag : Bool → Leaf X
  decimal : Level → Leaf X
  texts : List Text → Leaf X
  kept : X → Leaf X

pub data Value (X : Type 0) : Type 0 where
  leaf : Leaf X → Value X
  section : Entries (Leaf X) → Value X

-- `strings.Split(t, ",")`, as its first part and the others.
unfoldable pub split_commas : Text → Text × List Text
split_commas [] = ([], [])
split_commas (c ∷ cs) =
    let (first, others) = split_commas cs in
    if c == 44 then ([], first ∷ others) else (c ∷ first, others)

-- `strings.Join(texts, ",")`
unfoldable pub join_commas : List Text → Text
join_commas [] = []
join_commas (t ∷ []) = t
join_commas (t ∷ u ∷ rest) = t ++ 44 ∷ join_commas (u ∷ rest)

unfoldable pub trimmed : List Text → List Text
trimmed [] = []
trimmed (t ∷ rest) =
    let others = trimmed rest in if is_empty (trim_space t) then others else trim_space t ∷ others

unfoldable pub split_trimmed : Text → List Text
unfolding trimmed split_commas
split_trimmed t = let (first, others) = split_commas t in trimmed (first ∷ others)

-- `dst[name].(map[string]any)`, with a new map in place of anything else.
unfoldable pub section_of : {X : Type 0} → Option (Value X) → Entries (Leaf X)
section_of (some (section m)) = m
section_of (some (leaf v)) = []
section_of none = []

unfoldable pub edit_section :
    {X : Type 0} → Text → List (Edit (Leaf X)) → Entries (Value X) → Entries (Value X)
unfolding section_of
edit_section name edits dst = put name (section (run edits (section_of (get name dst)))) dst

-- `if key != "" { m["api_key"] = key }`
abbrev pub key_edit : {X : Type 0} → Text → List (Edit (Leaf X))
key_edit key = if is_empty key then [] else set (codes "api_key") (text key) ∷ []

module _ {X : Type 0} (duration : ℤ → Text) (cfg : VoiceConfig) where
  abbrev pub openai_edits : List (Edit (Leaf X))
  openai_edits =
      set (codes "base_url") (text cfg.openai.base_url)
      ∷ set (codes "model") (text cfg.openai.model)
      ∷ key_edit cfg.openai.api_key

  abbrev pub deepgram_edits : List (Edit (Leaf X))
  deepgram_edits =
      set (codes "base_url") (text cfg.deepgram.base_url)
      ∷ set (codes "model") (text cfg.deepgram.model)
      ∷ set (codes "streaming") (flag cfg.deepgram.streaming)
      ∷ key_edit cfg.deepgram.api_key

  abbrev pub go_whisper_edits : List (Edit (Leaf X))
  go_whisper_edits =
      set (codes "url") (text cfg.go_whisper.url)
      ∷ set (codes "model") (text cfg.go_whisper.model)
      ∷ unset (codes "prefix")
      ∷ set (codes "timeout") (text (duration cfg.go_whisper.timeout))
      ∷ set (codes "auto_download") (flag cfg.go_whisper.auto_download)
      ∷ []

  -- The two deletions come after `dst["hotkey"] = hotkey`, on the same map.
  abbrev pub hotkey_edits : List (Edit (Leaf X))
  hotkey_edits =
      set (codes "key") (text cfg.hotkey.key)
      ∷ set (codes "mode") (text cfg.hotkey.mode)
      ∷ set (codes "modifiers") (texts (split_trimmed (join_commas cfg.hotkey.modifiers)))
      ∷ unset (codes "backend")
      ∷ unset (codes "enabled")
      ∷ []

  abbrev pub output_edits : List (Edit (Leaf X))
  output_edits =
      set (codes "mode") (text cfg.output.mode)
      ∷ set (codes "autopaste_command") (text cfg.output.autopaste_command)
      ∷ set (codes "restore_clipboard") (flag cfg.output.restore_clipboard)
      ∷ []

  abbrev pub capture_edits : List (Edit (Leaf X))
  capture_edits =
      set (codes "backend") (text cfg.capture.backend)
      ∷ set (codes "sample_rate") (number cfg.capture.sample_rate)
      ∷ set (codes "channels") (number cfg.capture.channels)
      ∷ set (codes "max_duration") (text (duration cfg.capture.max_duration))
      ∷ set (codes "silence_threshold_dbfs") (decimal cfg.capture.silence_threshold_dbfs)
      ∷ []

  abbrev pub daemon_edits : List (Edit (Leaf X))
  daemon_edits =
      set (codes "shutdown_grace_period") (text (duration cfg.daemon.shutdown_grace_period)) ∷ []

  abbrev pub stt_retry_edits : List (Edit (Leaf X))
  stt_retry_edits =
      set (codes "enabled") (flag cfg.stt_retry.enabled)
      ∷ set (codes "initial_delay") (text (duration cfg.stt_retry.initial_delay))
      ∷ set (codes "max_delay") (text (duration cfg.stt_retry.max_delay))
      ∷ set (codes "max_attempts") (number cfg.stt_retry.max_attempts)
      ∷ []

  abbrev pub privacy_edits : List (Edit (Leaf X))
  privacy_edits =
      set (codes "log_transcript") (flag cfg.privacy.log_transcript)
      ∷ set (codes "keep_audio") (flag cfg.privacy.keep_audio)
      ∷ set (codes "keep_audio_dir") (text cfg.privacy.keep_audio_dir)
      ∷ set (codes "keep_audio_format") (text cfg.privacy.keep_audio_format)
      ∷ []

  abbrev pub top_edits : List (Edit (Value X))
  top_edits =
      set (codes "provider") (leaf (text cfg.provider))
      ∷ set (codes "language") (leaf (text cfg.language))
      ∷ set (codes "model_path") (leaf (text cfg.model_path))
      ∷ set (codes "whisper_cpp_models_dir") (leaf (text cfg.whisper_cpp_models_dir))
      ∷ set (codes "temp_dir") (leaf (text cfg.temp_dir))
      ∷ set (codes "convert_timeout") (leaf (text (duration cfg.convert_timeout)))
      ∷ set (codes "transcribe_timeout") (leaf (text (duration cfg.transcribe_timeout)))
      ∷ set (codes "log_level") (leaf (text cfg.log_level))
      ∷ []

  -- The sections in the order of the calls, each with its edits.
  abbrev pub section_edits : List (Text × List (Edit (Leaf X)))
  section_edits =
      (codes "openai", openai_edits)
      ∷ (codes "deepgram", deepgram_edits)
      ∷ (codes "go_whisper", go_whisper_edits)
      ∷ (codes "hotkey", hotkey_edits)
      ∷ (codes "output", output_edits)
      ∷ (codes "capture", capture_edits)
      ∷ (codes "daemon", daemon_edits)
      ∷ (codes "stt_retry", stt_retry_edits)
      ∷ (codes "privacy", privacy_edits)
      ∷ []

unfoldable pub edit_sections :
    {X : Type 0} → List (Text × List (Edit (Leaf X))) → Entries (Value X) → Entries (Value X)
unfolding edit_section
edit_sections [] dst = dst
edit_sections ((name, edits) ∷ rest) dst = edit_sections rest (edit_section name edits dst)

unfoldable pub apply_to_map :
    {X : Type 0} → (ℤ → Text) → VoiceConfig → Entries (Value X) → Entries (Value X)
unfolding edit_sections
apply_to_map duration cfg dst =
    edit_sections (section_edits duration cfg) (run (top_edits duration cfg) dst)

-- `Bytes` is the content of a file. `read` gives none on any failure, and so does `unmarshal`.
pub record Disk (X Bytes : Type 0) : Type 0 where
  pub config_path : Option String
  pub mkdir_all : Option String
  pub read : Option Bytes
  pub unmarshal : Bytes → Option (Entries (Value X))
  pub marshal : Entries (Value X) → Option Bytes
  pub write : Bytes → Option String

pub data SaveError : Type 0 where
  no_config_dir mkdir_failed write_failed : String → SaveError
  marshal_failed : SaveError

-- The error, and what the file was told to hold.
pub record Saved (Bytes : Type 0) : Type 0 where
  pub error : Option SaveError
  pub written : Option Bytes

unfoldable pub existing : {X Bytes : Type 0} → Disk X Bytes → Entries (Value X)
existing disk = elim disk.read [
  | none ↦ []
  | some raw ↦ elim (disk.unmarshal raw) [ none ↦ [] | some m ↦ m ]
]

abbrev pub wrote : {Bytes : Type 0} → Bytes → Option String → Saved Bytes
wrote bytes none = record { error = none; written = some bytes }
wrote bytes (some e) = record { error = some (write_failed e); written = some bytes }

abbrev pub marshalled : {X Bytes : Type 0} → Disk X Bytes → Option Bytes → Saved Bytes
marshalled disk none = record { error = some marshal_failed; written = none }
marshalled disk (some bytes) = wrote bytes (disk.write bytes)

-- `SaveConfig` with the map that is to be written, from its guards on.
unfoldable pub save_map : {X Bytes : Type 0} → Disk X Bytes → Entries (Value X) → Saved Bytes
save_map disk m = elim disk.config_path [
  | some e ↦ record { error = some (no_config_dir e); written = none }
  | none ↦ elim disk.mkdir_all [
    | some e ↦ record { error = some (mkdir_failed e); written = none }
    | none ↦ marshalled disk (disk.marshal m)
  ]
]

unfoldable pub save_config :
    {X Bytes : Type 0} → (ℤ → Text) → VoiceConfig → Disk X Bytes → Saved Bytes
unfolding save_map existing apply_to_map
save_config duration cfg disk = save_map disk (apply_to_map duration cfg (existing disk))
