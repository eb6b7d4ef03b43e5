-- ===== src/Examples/Config.antt =====
-- Runs of the configuration's checks, and the theorems at concrete inputs.
use a2text.Base.{
  true, false, Option, none, some, List, [], ◌∷◌, Text, codes, is_space, trim_space, one_of,
  same_text, ◌≡◌, ◌≢◌, refl, ◌↔◌, All, String,
}
use a2text.Base.Int.{pos}
use a2text.Config.Schema.{Level, VoiceConfig, legacy_provider_deepgram_stream, ConfigError}
use a2text.Config.Normal.{
  lower_ascii, lower_ascii-IsLowering, fold_text, normalize_voice_config,
  migrate_legacy_voice_provider, apply_voice_config_defaults, or_text, or_number,
}
use a2text.Config.Settled.{normalize_idem}
use a2text.Config.Url.{Url, validate_http_url, check_url}
use a2text.Config.Language.{
  IsLanguage, validate_voice_language, validate_voice_language_iff, matches_language, all_of,
  is_alpha, is_alphanumeric,
}
use a2text.Config.Validate.{
  validate_voice, validate_config, check_voice, first_error, validate_voice_output,
  validate_voice_log_level, validate_voice_timeouts, validate_voice_capture, validate_voice_privacy,
  validate_voice_provider,
}
use a2text.Config.Valid.{IsValid}
use a2text.Config.Accept.{first_error_iff, validate_voice_iff, validate_voice_again}
use a2text.Config.Keys.{
  Among, check_unknown_keys, check_unknown_keys_iff, is_tolerated, unknown_keys,
}
use a2text.Config.Load.{
  FileInfo, Step, Source, Environment, Load, load_voice, IsPrivateDir, after_read, unmarshalled,
  with_temp_dir, validated, made_dir, checked_dir, verify_temp_dir, same_owner, read_voice_config,
  splice_prefix, trim_slashes, merged,
}
use a2text.Config.Loaded.{load_voice-IsValid, load_voice_refuses_prefix}

-- A configuration in the old style, with blanks around some values.
abbrev pub old_style : VoiceConfig
old_style = record {
  provider = legacy_provider_deepgram_stream;
  language = codes " ru ";
  ui_language = [];
  model_path = [];
  whisper_cpp_models_dir = [];
  go_whisper = record { url = []; model = []; timeout = pos 600; auto_download = true };
  openai = record { api_key = []; base_url = []; model = [] };
  deepgram = record { api_key = codes "secret "; base_url = []; model = []; streaming = false };
  temp_dir = [];
  convert_timeout = pos 60;
  transcribe_timeout = pos 600;
  log_level = codes "INFO";
  capture = record {
    backend = [];
    sample_rate = pos 0;
    channels = pos 0;
    max_duration = pos 0;
    silence_threshold_dbfs = Level.below;
  };
  output = record { mode = []; autopaste_command = codes " WType"; restore_clipboard = false };
  daemon = record { shutdown_grace_period = pos 0 };
  hotkey = record { key = codes "F12"; modifiers = []; mode = codes "toggle" };
  stt_retry = record {
    initial_delay = pos 0;
    max_delay = pos 0;
    max_attempts = pos 0;
    enabled = false;
  };
  privacy = record {
    keep_audio = false;
    log_transcript = false;
    keep_audio_dir = [];
    keep_audio_format = [];
  };
}

-- A parser that knows one URL.
abbrev pub parse_one : Text → Option Url
parse_one t = some (record {
  scheme = codes "http";
  host = codes "localhost:9081";
  has_user = false;
  raw_query = [];
  fragment = [];
})

old_style_accepted : (validate_voice lower_ascii parse_one (some old_style)).0 ≡ none
unfolding validate_voice validate_config migrate_legacy_voice_provider check_voice
    normalize_voice_config apply_voice_config_defaults first_error validate_voice_output
    validate_voice_log_level validate_voice_language matches_language validate_voice_timeouts
    validate_voice_capture validate_voice_privacy validate_voice_provider validate_http_url
    check_url lower_ascii fold_text or_text or_number trim_space is_space one_of same_text all_of
    is_alpha
old_style_accepted = refl

-- A language of nine letters is refused.
long_language :
    (validate_voice lower_ascii parse_one
      (some (record old_style { language = codes "esperanto" }))).0
    ≡ some ConfigError.language_pattern
unfolding validate_voice validate_config migrate_legacy_voice_provider check_voice
    normalize_voice_config apply_voice_config_defaults first_error validate_voice_output
    validate_voice_log_level validate_voice_language matches_language validate_voice_timeouts
    validate_voice_capture validate_voice_privacy validate_voice_provider validate_http_url
    check_url lower_ascii fold_text or_text or_number trim_space is_space one_of same_text all_of
    is_alpha
long_language = refl

normalize_idem_example :
    normalize_voice_config lower_ascii (normalize_voice_config lower_ascii old_style)
    ≡ normalize_voice_config lower_ascii old_style
normalize_idem_example = normalize_idem lower_ascii lower_ascii-IsLowering old_style

abbrev pub settled_old_style : VoiceConfig
settled_old_style = normalize_voice_config lower_ascii (migrate_legacy_voice_provider old_style)

pub settled-IsValid : IsValid lower_ascii parse_one settled_old_style
unfolding validate_voice validate_config migrate_legacy_voice_provider check_voice
    normalize_voice_config apply_voice_config_defaults first_error validate_voice_output
    validate_voice_log_level validate_voice_language matches_language validate_voice_timeouts
    validate_voice_capture validate_voice_privacy validate_voice_provider validate_http_url
    check_url lower_ascii fold_text or_text or_number trim_space is_space one_of same_text all_of
    is_alpha
settled-IsValid = (first_error_iff lower_ascii parse_one settled_old_style).0 refl

validate_voice_iff_example :
    ((validate_voice lower_ascii parse_one (some old_style)).1 ≡ some settled_old_style)
    × (((validate_voice lower_ascii parse_one (some old_style)).0 ≡ none)
        ↔ IsValid lower_ascii parse_one settled_old_style)
validate_voice_iff_example = validate_voice_iff lower_ascii parse_one old_style

validate_voice_again_example :
    validate_voice lower_ascii parse_one (some settled_old_style) ≡ (none, some settled_old_style)
unfolding validate_voice validate_config migrate_legacy_voice_provider check_voice
    normalize_voice_config apply_voice_config_defaults first_error validate_voice_output
    validate_voice_log_level validate_voice_language matches_language validate_voice_timeouts
    validate_voice_capture validate_voice_privacy validate_voice_provider validate_http_url
    check_url lower_ascii fold_text or_text or_number trim_space is_space one_of same_text all_of
    is_alpha
validate_voice_again_example =
    validate_voice_again lower_ascii parse_one lower_ascii-IsLowering old_style refl

validate_voice_language_iff_example :
    (validate_voice_language (codes "zh-Hans") ≡ none) ↔ IsLanguage (codes "zh-Hans")
validate_voice_language_iff_example = validate_voice_language_iff (codes "zh-Hans")

chinese : validate_voice_language (codes "zh-Hans") ≡ none
unfolding validate_voice_language matches_language all_of is_alpha is_alphanumeric
chinese = refl

abbrev home : FileInfo
home = record { is_dir = true; owner = some 1000; perm = 448 }

-- A loader's surroundings: the file of the old style, and a temporary directory of user 1000 with mode 0700.
abbrev surroundings : List Text → Text → Environment Text
surroundings names prefix_value = record {
  explicit_path = true;
  read = Source.keys names;
  viper = prefix_value;
  merge_local = λ v. v;
  prefix = λ v. v;
  url = λ _. codes "http://localhost:9081/";
  unmarshal = λ _ _. Step.ok old_style;
  private_temp_dir = codes "/tmp/a2text-voice-1000";
  make_all = λ _. none;
  stat = λ _. Step.ok home;
  uid = pos 1000;
}

abbrev settled_with_dir : VoiceConfig
settled_with_dir = record settled_old_style { temp_dir = codes "/tmp/a2text-voice-1000" }

load_voice-IsValid_example :
    IsValid lower_ascii parse_one settled_with_dir
    × (◌≡◌ {A = Option String} none none)
    × ((info : FileInfo) × (Step.ok home ≡ Step.ok info) × IsPrivateDir (pos 1000) info)
unfolding load_voice after_read unmarshalled with_temp_dir validated made_dir checked_dir
    verify_temp_dir same_owner read_voice_config merged check_unknown_keys unknown_keys is_tolerated
    splice_prefix validate_voice validate_config migrate_legacy_voice_provider check_voice
    normalize_voice_config apply_voice_config_defaults first_error validate_voice_output
    validate_voice_log_level validate_voice_language matches_language validate_voice_timeouts
    validate_voice_capture validate_voice_privacy validate_voice_provider validate_http_url
    check_url lower_ascii fold_text or_text or_number trim_space is_space one_of same_text all_of
    is_alpha
load_voice-IsValid_example =
    load_voice-IsValid lower_ascii parse_one (surroundings (codes "provider" ∷ []) []) refl

load_voice_refuses_prefix_example :
    load_voice lower_ascii parse_one
      (surroundings (codes "provider" ∷ codes "go_whisper.prefix" ∷ []) (codes "api/whisper"))
    ≢ Load.loaded old_style
load_voice_refuses_prefix_example =
    load_voice_refuses_prefix lower_ascii parse_one
      (surroundings (codes "provider" ∷ codes "go_whisper.prefix" ∷ []) (codes "api/whisper"))
      old_style refl (Among.there Among.here)

check_unknown_keys_iff_example :
    (check_unknown_keys (codes "hotkey.mode" ∷ codes "daemon.socket_path" ∷ []) ≡ none)
    ↔ All (λ k. is_tolerated k ≡ true) (codes "hotkey.mode" ∷ codes "daemon.socket_path" ∷ [])
check_unknown_keys_iff_example =
    check_unknown_keys_iff (codes "hotkey.mode" ∷ codes "daemon.socket_path" ∷ [])

-- The prefix is joined to the URL with one slash.
spliced :
    splice_prefix (codes " api/whisper ") (codes "http://host//")
    ≡ some (codes "http://host/api/whisper")
unfolding splice_prefix trim_slashes trim_space is_space
spliced = refl
