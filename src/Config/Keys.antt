-- ===== src/Config/Keys.antt =====
-- The check for unknown keys, and the legacy prefix of the go-whisper URL (internal/infra/config/config.go).
use a2text.Base.{
  Bool, true, false, ◌||◌, Option, none, some, List, [], ◌∷◌, Text, codes, one_of, All, ◌≡◌, ◌≢◌,
  refl, ◌↔◌, arith, if◌then◌else◌,
}

abbrev pub known_config_keys : List Text
known_config_keys =
    codes "provider"
    ∷ codes "language"
    ∷ codes "ui_language"
    ∷ codes "model_path"
    ∷ codes "whisper_cpp_models_dir"
    ∷ codes "go_whisper"
    ∷ codes "go_whisper.url"
    ∷ codes "go_whisper.model"
    ∷ codes "go_whisper.timeout"
    ∷ codes "go_whisper.auto_download"
    ∷ codes "openai"
    ∷ codes "openai.api_key"
    ∷ codes "openai.base_url"
    ∷ codes "openai.model"
    ∷ codes "deepgram"
    ∷ codes "deepgram.api_key"
    ∷ codes "deepgram.base_url"
    ∷ codes "deepgram.model"
    ∷ codes "deepgram.streaming"
    ∷ codes "temp_dir"
    ∷ codes "convert_timeout"
    ∷ codes "transcribe_timeout"
    ∷ codes "log_level"
    ∷ codes "capture"
    ∷ codes "capture.backend"
    ∷ codes "capture.sample_rate"
    ∷ codes "capture.channels"
    ∷ codes "capture.max_duration"
    ∷ codes "capture.silence_threshold_dbfs"
    ∷ codes "output"
    ∷ codes "output.mode"
    ∷ codes "output.autopaste_command"
    ∷ codes "output.restore_clipboard"
    ∷ codes "output_mode"
    ∷ codes "autopaste_command"
    ∷ codes "restore_clipboard"
    ∷ codes "daemon"
    ∷ codes "daemon.shutdown_grace_period"
    ∷ codes "hotkey"
    ∷ codes "hotkey.key"
    ∷ codes "hotkey.modifiers"
    ∷ codes "hotkey.mode"
    ∷ codes "stt_retry"
    ∷ codes "stt_retry.enabled"
    ∷ codes "stt_retry.initial_delay"
    ∷ codes "stt_retry.max_delay"
    ∷ codes "stt_retry.max_attempts"
    ∷ codes "privacy"
    ∷ codes "privacy.keep_audio"
    ∷ codes "privacy.log_transcript"
    ∷ codes "privacy.keep_audio_dir"
    ∷ codes "privacy.keep_audio_format"
    ∷ []

abbrev pub deprecated_config_keys : List Text
deprecated_config_keys = codes "daemon.socket_path" ∷ []

-- A key that is accepted.
unfoldable pub is_tolerated : Text → Bool
is_tolerated key = one_of key known_config_keys || one_of key deprecated_config_keys

-- The keys that the error lists, in the order of `AllKeys`.
unfoldable pub unknown_keys : List Text → List Text
unfolding is_tolerated
unknown_keys [] = []
unknown_keys (key ∷ keys) =
    let rest = unknown_keys keys in if is_tolerated key then rest else key ∷ rest

refuse : List Text → Option (List Text)
refuse [] = none
refuse (k ∷ ks) = some (k ∷ ks)

unfoldable pub check_unknown_keys : List Text → Option (List Text)
unfolding unknown_keys refuse
check_unknown_keys keys = refuse (unknown_keys keys)

-- A text stands among others.
pub data Among (t : Text) : List Text → Type 0 where
  here : {ts : List Text} → Among t (t ∷ ts)
  there : {s : Text} {ts : List Text} → Among t ts → Among t (s ∷ ts)

-- The keys of a file that hold none but tolerated ones.
unknown_keys-nil :
    (keys : List Text) → unknown_keys keys ≡ [] → All (λ k. is_tolerated k ≡ true) keys
unfolding unknown_keys
unknown_keys-nil [] h = tt
unknown_keys-nil (k ∷ ks) h = ground (arith, unknown_keys-nil ks)

unknown_keys_nothing :
    (keys : List Text) → All (λ k. is_tolerated k ≡ true) keys → unknown_keys keys ≡ []
unfolding unknown_keys
unknown_keys_nothing [] h = refl
unknown_keys_nothing (k ∷ ks) h = ground (arith, unknown_keys_nothing ks)

refuse-none : (ks : List Text) → refuse ks ≡ none → ks ≡ []
unfolding refuse
refuse-none [] h = refl
refuse-none (k ∷ ks) h = ground arith

-- The check passes exactly if every key is known or deprecated.
pub check_unknown_keys_iff :
    (keys : List Text) → (check_unknown_keys keys ≡ none) ↔ All (λ k. is_tolerated k ≡ true) keys
unfolding check_unknown_keys refuse
check_unknown_keys_iff keys = (
  λ h. unknown_keys-nil keys (refuse-none (unknown_keys keys) h),
  λ a. rw (unknown_keys_nothing keys a) refl,
)

All-Among {ℓ} : (P : Text → Type ℓ) {t : Text} {ts : List Text} → All P ts → Among t ts → P t
All-Among P a Among.here = a.0
All-Among P a (Among.there m) = All-Among P a.1 m

-- A key that is neither known nor deprecated, anywhere in the file, makes the check fail.
pub check_unknown_keys-Among :
    {key : Text} {keys : List Text}
    → is_tolerated key ≡ false
    → Among key keys
    → check_unknown_keys keys ≢ none
check_unknown_keys-Among f m h =
    let all = (check_unknown_keys_iff _).0 h in
    let t : is_tolerated _ ≡ true = All-Among (λ k. is_tolerated k ≡ true) all m in
    ground (arith, f, t)
