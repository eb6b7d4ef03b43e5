-- ===== src/Settings/Shows.antt =====
-- That a save shows them (internal/adapters/settings/save.go), and leaves every other key of the sections alone.
use a2text.Base.{
  Bool, true, false, ◌||◌, Bool-cases, some, List, [], ◌∷◌, ◌++◌, Text, same_text, is_empty, codes,
  ◌≡◌, refl, ap, ◌∙◌, arith, inl, inr, if◌then◌else◌,
}
use a2text.Base.Int.{ℤ}
use a2text.Config.Schema.{VoiceConfig}
use a2text.Settings.Document.{
  Entries, Edit, run, get, Left, untouched, holds, or_else, left, settled, get-run, get-put,
}
use a2text.Settings.Save.{
  Leaf, Value, section, text, section_of, edit_section, edit_sections, section_edits, top_edits,
  apply_to_map, key_edit,
}
use a2text.Settings.Saved.{value_at, edits_of, value_at-apply_to_map}
use a2text.Settings.Touched.{apply_to_map_rest}
use a2text.Settings.Shown.{
  ShowsOpenai, ShowsDeepgram, ShowsGoWhisper, ShowsHotkey, ShowsOutput, ShowsCapture, ShowsDaemon,
  ShowsSttRetry, ShowsPrivacy, ShowsOthers, Shows,
}

get-edit_section :
    {X : Type 0} (name n : Text) (edits : List (Edit (Leaf X))) (doc : Entries (Value X))
    → same_text name n ≡ false
    → get name (edit_section n edits doc) ≡ get name doc
unfolding edit_section
get-edit_section name n edits doc h =
    get-put name n (section (run edits (section_of (get n doc)))) doc ∙ rw h refl

unfoldable is_section : {X : Type 0} → Text → List (Text × List (Edit (Leaf X))) → Bool
is_section name [] = false
is_section name ((n, edits) ∷ rest) = same_text name n || is_section name rest

get-edit_sections :
    {X : Type 0} (name : Text) (table : List (Text × List (Edit (Leaf X))))
    (doc : Entries (Value X))
    → is_section name table ≡ false
    → get name (edit_sections table doc) ≡ get name doc
unfolding edit_sections is_section
get-edit_sections name [] doc h = refl
get-edit_sections name ((n, edits) ∷ rest) doc h =
    get-edit_sections name rest (edit_section n edits doc) (ground arith)
    ∙ get-edit_section name n edits doc (ground arith)

-- The edits of the key say nothing of another one.
no_key :
    {X : Type 0} (k t : Text)
    → same_text k (codes "api_key") ≡ false
    → left k (key_edit {X = X} t ++ []) ≡ untouched
unfolding left or_else
no_key {X} k t h = elim (Bool-cases (is_empty t)) [ inl e ↦ rw e refl | inr e ↦ rw (e, h) refl ]

module _ {X : Type 0} (duration : ℤ → Text) (cfg : VoiceConfig) (doc : Entries (Value X)) where
  inner :
      (name key : Text) {l : Left (Leaf X)}
      → left name (top_edits {X = X} duration cfg) ≡ untouched
      → left key (edits_of {X = X} name (section_edits duration cfg)) ≡ l
      → value_at name key (apply_to_map duration cfg doc) ≡ settled l (value_at name key doc)
  inner name key free h =
      value_at-apply_to_map duration cfg doc name key free
      ∙ ap (λ l. settled l (value_at name key doc)) h

  shown :
      (name key : Text) {v : Leaf X}
      → left name (top_edits {X = X} duration cfg) ≡ untouched
      → left key (edits_of {X = X} name (section_edits duration cfg)) ≡ holds (some v)
      → value_at name key (apply_to_map duration cfg doc) ≡ some v
  unfolding settled
  shown name key free h = inner name key free h

  key_inner :
      (name : Text) (b : Bool) (v : Leaf X)
      → left name (top_edits {X = X} duration cfg) ≡ untouched
      → left (codes "api_key") (edits_of {X = X} name (section_edits duration cfg))
        ≡ (if b then untouched else holds (some v))
      → value_at name (codes "api_key") (apply_to_map duration cfg doc)
        ≡ (if b then value_at name (codes "api_key") doc else some v)
  unfolding settled
  key_inner name true v free h = inner name (codes "api_key") free h
  key_inner name false v free h = inner name (codes "api_key") free h

  outer :
      (name : Text) {v : Value X}
      → is_section {X = X} name (section_edits duration cfg) ≡ false
      → left name (top_edits duration cfg) ≡ holds (some v)
      → get name (apply_to_map duration cfg doc) ≡ some v
  unfolding apply_to_map settled
  outer name free h =
      get-edit_sections name (section_edits duration cfg) (run (top_edits duration cfg) doc) free
      ∙ get-run name (top_edits duration cfg) doc
      ∙ ap (λ l. settled l (get name doc)) h

  openai_key_said :
      left (codes "api_key") (edits_of {X = X} (codes "openai") (section_edits duration cfg))
      ≡ (if is_empty cfg.openai.api_key then untouched else holds (some (text cfg.openai.api_key)))
  unfolding left edits_of same_text or_else
  openai_key_said = elim (Bool-cases (is_empty cfg.openai.api_key)) [
    | inl e ↦ rw e refl
    | inr e ↦ rw e refl
  ]

  deepgram_key_said :
      left (codes "api_key") (edits_of {X = X} (codes "deepgram") (section_edits duration cfg)) ≡ (
        if is_empty cfg.deepgram.api_key
        then untouched
        else holds (some (text cfg.deepgram.api_key)))
  unfolding left edits_of same_text or_else
  deepgram_key_said = elim (Bool-cases (is_empty cfg.deepgram.api_key)) [
    | inl e ↦ rw e refl
    | inr e ↦ rw e refl
  ]

  apply_to_map-ShowsOpenai : ShowsOpenai duration cfg doc (apply_to_map duration cfg doc)
  unfolding left edits_of same_text or_else
  apply_to_map-ShowsOpenai = record {
    base_url_is =
        shown (codes "openai") (codes "base_url") refl
          (rw (no_key {X = X} (codes "base_url") cfg.openai.api_key refl) refl);
    model_is =
        shown (codes "openai") (codes "model") refl
          (rw (no_key {X = X} (codes "model") cfg.openai.api_key refl) refl);
    api_key_is =
        key_inner (codes "openai") (is_empty cfg.openai.api_key) (text cfg.openai.api_key) refl
          openai_key_said;
  }

  apply_to_map-ShowsDeepgram : ShowsDeepgram duration cfg doc (apply_to_map duration cfg doc)
  unfolding left edits_of same_text or_else
  apply_to_map-ShowsDeepgram = record {
    base_url_is =
        shown (codes "deepgram") (codes "base_url") refl
          (rw (no_key {X = X} (codes "base_url") cfg.deepgram.api_key refl) refl);
    model_is =
        shown (codes "deepgram") (codes "model") refl
          (rw (no_key {X = X} (codes "model") cfg.deepgram.api_key refl) refl);
    streaming_is =
        shown (codes "deepgram") (codes "streaming") refl
          (rw (no_key {X = X} (codes "streaming") cfg.deepgram.api_key refl) refl);
    api_key_is =
        key_inner (codes "deepgram") (is_empty cfg.deepgram.api_key) (text cfg.deepgram.api_key)
          refl deepgram_key_said;
  }

  apply_to_map-ShowsGoWhisper : ShowsGoWhisper duration cfg doc (apply_to_map duration cfg doc)
  unfolding left edits_of same_text or_else
  apply_to_map-ShowsGoWhisper = record {
    url_is = shown (codes "go_whisper") (codes "url") refl refl;
    model_is = shown (codes "go_whisper") (codes "model") refl refl;
    timeout_is = shown (codes "go_whisper") (codes "timeout") refl refl;
    auto_download_is = shown (codes "go_whisper") (codes "auto_download") refl refl;
  }

  apply_to_map-ShowsHotkey : ShowsHotkey duration cfg doc (apply_to_map duration cfg doc)
  unfolding left edits_of same_text or_else
  apply_to_map-ShowsHotkey = record {
    key_is = shown (codes "hotkey") (codes "key") refl refl;
    mode_is = shown (codes "hotkey") (codes "mode") refl refl;
    modifiers_is = shown (codes "hotkey") (codes "modifiers") refl refl;
  }

  apply_to_map-ShowsOutput : ShowsOutput duration cfg doc (apply_to_map duration cfg doc)
  unfolding left edits_of same_text or_else
  apply_to_map-ShowsOutput = record {
    mode_is = shown (codes "output") (codes "mode") refl refl;
    autopaste_command_is = shown (codes "output") (codes "autopaste_command") refl refl;
    restore_clipboard_is = shown (codes "output") (codes "restore_clipboard") refl refl;
  }

  apply_to_map-ShowsCapture : ShowsCapture duration cfg doc (apply_to_map duration cfg doc)
  unfolding left edits_of same_text or_else
  apply_to_map-ShowsCapture = record {
    backend_is = shown (codes "capture") (codes "backend") refl refl;
    sample_rate_is = shown (codes "capture") (codes "sample_rate") refl refl;
    channels_is = shown (codes "capture") (codes "channels") refl refl;
    max_duration_is = shown (codes "capture") (codes "max_duration") refl refl;
    silence_threshold_dbfs_is = shown (codes "capture") (codes "silence_threshold_dbfs") refl refl;
  }

  apply_to_map-ShowsDaemon : ShowsDaemon duration cfg doc (apply_to_map duration cfg doc)
  unfolding left edits_of same_text or_else
  apply_to_map-ShowsDaemon = record {
    shutdown_grace_period_is = shown (codes "daemon") (codes "shutdown_grace_period") refl refl;
  }

  apply_to_map-ShowsSttRetry : ShowsSttRetry duration cfg doc (apply_to_map duration cfg doc)
  unfolding left edits_of same_text or_else
  apply_to_map-ShowsSttRetry = record {
    enabled_is = shown (codes "stt_retry") (codes "enabled") refl refl;
    initial_delay_is = shown (codes "stt_retry") (codes "initial_delay") refl refl;
    max_delay_is = shown (codes "stt_retry") (codes "max_delay") refl refl;
    max_attempts_is = shown (codes "stt_retry") (codes "max_attempts") refl refl;
  }

  apply_to_map-ShowsPrivacy : ShowsPrivacy duration cfg doc (apply_to_map duration cfg doc)
  unfolding left edits_of same_text or_else
  apply_to_map-ShowsPrivacy = record {
    log_transcript_is = shown (codes "privacy") (codes "log_transcript") refl refl;
    keep_audio_is = shown (codes "privacy") (codes "keep_audio") refl refl;
    keep_audio_dir_is = shown (codes "privacy") (codes "keep_audio_dir") refl refl;
    keep_audio_format_is = shown (codes "privacy") (codes "keep_audio_format") refl refl;
  }

  apply_to_map-ShowsOthers : ShowsOthers duration cfg doc (apply_to_map duration cfg doc)
  unfolding left is_section same_text
  apply_to_map-ShowsOthers = record {
    provider_is = outer (codes "provider") refl refl;
    language_is = outer (codes "language") refl refl;
    model_path_is = outer (codes "model_path") refl refl;
    whisper_cpp_models_dir_is = outer (codes "whisper_cpp_models_dir") refl refl;
    temp_dir_is = outer (codes "temp_dir") refl refl;
    convert_timeout_is = outer (codes "convert_timeout") refl refl;
    transcribe_timeout_is = outer (codes "transcribe_timeout") refl refl;
    log_level_is = outer (codes "log_level") refl refl;
  }

  pub apply_to_map-Shows : Shows duration cfg doc (apply_to_map duration cfg doc)
  apply_to_map-Shows = record {
    openai = apply_to_map-ShowsOpenai;
    deepgram = apply_to_map-ShowsDeepgram;
    go_whisper = apply_to_map-ShowsGoWhisper;
    hotkey = apply_to_map-ShowsHotkey;
    output = apply_to_map-ShowsOutput;
    capture = apply_to_map-ShowsCapture;
    daemon = apply_to_map-ShowsDaemon;
    stt_retry = apply_to_map-ShowsSttRetry;
    privacy = apply_to_map-ShowsPrivacy;
    others = apply_to_map-ShowsOthers;
    rest = apply_to_map_rest duration cfg doc;
  }
