-- ===== src/Config/Accept.antt =====
-- `ValidateVoice` accepts exactly the valid configurations (internal/infra/config/config.go).
use a2text.Base.{ℕ, Option, none, some, Text, same_text, ◌≡◌, refl, ap, ◌∙◌, subst, ◌↔◌, inl, inr}
use a2text.Config.Schema.{VoiceConfig, ConfigError}
use a2text.Config.Normal.{IsLowering, migrate_legacy_voice_provider, normalize_voice_config}
use a2text.Config.Settled.{normalize_idem}
use a2text.Config.Url.{Url}
use a2text.Config.Language.{validate_voice_language, validate_voice_language_iff}
use a2text.Config.Validate.{
  validate_voice_output, validate_voice_log_level, validate_voice_timeouts, validate_voice_capture,
  validate_voice_privacy, validate_voice_daemon, first_error, check_voice, validate_config,
  validate_voice,
}
use a2text.Config.Valid.{
  IsValid, or_else-none, validate_voice_output_iff, validate_voice_log_level_iff,
  validate_voice_timeouts_iff, validate_voice_capture_iff, validate_voice_privacy_iff,
  validate_voice_provider_iff,
}

module _ (to_lower : ℕ → ℕ) (parse : Text → Option Url) where
  -- The checks on a normalised configuration find no error exactly if it is valid.
  pub first_error_iff :
      (c : VoiceConfig) → (first_error to_lower parse c ≡ none) ↔ IsValid to_lower parse c
  unfolding first_error validate_voice_daemon
  first_error_iff c = (to, from)
    where
      to : first_error to_lower parse c ≡ none → IsValid to_lower parse c
      to h =
          let (o, h1) = or_else-none to_lower parse (validate_voice_output c) h in
          let (l, h2) = or_else-none to_lower parse (validate_voice_log_level c) h1 in
          let (g, h3) = or_else-none to_lower parse (validate_voice_language c.language) h2 in
          let (t, h4) = or_else-none to_lower parse (validate_voice_timeouts c) h3 in
          let (k, h5) = or_else-none to_lower parse (validate_voice_capture to_lower c) h4 in
          let (d, h6) = or_else-none to_lower parse (validate_voice_daemon c) h5 in
          let (p, b) = or_else-none to_lower parse (validate_voice_privacy c) h6 in
          let output = (validate_voice_output_iff to_lower parse c).0 o in
          let timeouts = (validate_voice_timeouts_iff to_lower parse c).0 t in
          let capture = (validate_voice_capture_iff to_lower parse c).0 k in
          record {
            mode = output.0;
            autopaste = output.1;
            level = (validate_voice_log_level_iff to_lower parse c).0 l;
            language = (validate_voice_language_iff c.language).0 g;
            convert = timeouts.0;
            transcribe = timeouts.1;
            go_whisper = timeouts.2;
            rate = capture.0;
            channels = capture.1;
            duration = capture.2;
            threshold = capture.3;
            backend = capture.4;
            format = (validate_voice_privacy_iff to_lower parse c).0 p;
            provider = (validate_voice_provider_iff to_lower parse c).0 b;
          }

      from : IsValid to_lower parse c → first_error to_lower parse c ≡ none
      from v =
          rw
            (
              first_error,
              (validate_voice_output_iff to_lower parse c).1 (v.mode, v.autopaste),
              (validate_voice_log_level_iff to_lower parse c).1 v.level,
              (validate_voice_language_iff c.language).1 v.language,
              (validate_voice_timeouts_iff to_lower parse c).1
                  (v.convert, v.transcribe, v.go_whisper),
              (validate_voice_capture_iff to_lower parse c).1
                  (v.rate, v.channels, v.duration, v.threshold, v.backend),
              (validate_voice_privacy_iff to_lower parse c).1 v.format,
              (validate_voice_provider_iff to_lower parse c).1 v.provider,
            )
            refl

  -- `ValidateVoice` accepts a configuration exactly if it is valid once its provider is migrated and its fields are
  -- normalised, and it leaves that configuration, accepted or not.
  pub validate_voice_iff :
      (c : VoiceConfig)
      → let d = normalize_voice_config to_lower (migrate_legacy_voice_provider c) in
        ((validate_voice to_lower parse (some c)).1 ≡ some d)
        × (((validate_voice to_lower parse (some c)).0 ≡ none) ↔ IsValid to_lower parse d)
  unfolding validate_voice validate_config check_voice
  validate_voice_iff c = (refl, first_error_iff _)

-- A configuration that has no legacy provider stays so when it is normalised and accepted.
IsValid-current :
    (to_lower : ℕ → ℕ) (parse : Text → Option Url) (c : VoiceConfig)
    → IsValid to_lower parse c
    → migrate_legacy_voice_provider c ≡ c
unfolding migrate_legacy_voice_provider same_text
IsValid-current to_lower parse c v = elim v.provider [
  | inl (e, has, url) ↦ rw (migrate_legacy_voice_provider, e) refl
  | inr (inl e) ↦ rw (migrate_legacy_voice_provider, e) refl
  | inr (inr (inl (e, has, url))) ↦ rw (migrate_legacy_voice_provider, e) refl
  | inr (inr (inr (e, has, url))) ↦ rw (migrate_legacy_voice_provider, e) refl
]

-- What `ValidateVoice` has accepted, it accepts again, and leaves as it is.
pub validate_voice_again :
    (to_lower : ℕ → ℕ) (parse : Text → Option Url)
    → IsLowering to_lower
    → (c : VoiceConfig) {d : Option VoiceConfig}
    → validate_voice to_lower parse (some c) ≡ (none, d)
    → validate_voice to_lower parse d ≡ (none, d)
unfolding validate_voice validate_config check_voice
validate_voice_again to_lower parse law c h =
    let e = normalize_voice_config to_lower (migrate_legacy_voice_provider c) in
    let clean : first_error to_lower parse e ≡ none = ap (λ r. r.0) h in
    let v = (first_error_iff to_lower parse e).0 clean in
    let fixed : normalize_voice_config to_lower (migrate_legacy_voice_provider e) ≡ e =
      ap (normalize_voice_config to_lower) (IsValid-current to_lower parse e v)
      ∙ normalize_idem to_lower law (migrate_legacy_voice_provider c) in
    subst (λ (o : Option VoiceConfig). validate_voice to_lower parse o ≡ (none, o))
      (ap (λ r. r.1) h)
      (ap (λ (x : VoiceConfig). (first_error to_lower parse x, some x)) fixed
        ∙ ap (λ (r : Option ConfigError). (r, some e)) clean)
