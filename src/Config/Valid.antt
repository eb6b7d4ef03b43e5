-- ===== src/Config/Valid.antt =====
-- What a valid configuration is, apart from the code, and what each check of internal/infra/config/config.go accepts.
use mathlib.Core.Option.{or_else}
use a2text.Base.{
  ℕ, Option, none, some, List, [], ◌∷◌, Text, is_empty, one_of, one_of_iff, IsOneOf, same_text,
  same_text-eq, ◌≡◌, ◌≢◌, refl, ◌↔◌, ◌⊎◌, inl, inr, Bool-cases, arith, true, false, if◌then◌else◌,
  ◌||◌,
}
use a2text.Base.Int.{ℤ, pos, negsuc, ltb_ℤ, ◌≤ℤ◌}
use a2text.Config.Schema.{
  Level, above, VoiceConfig, UrlName, provider_go_whisper, provider_whisper_cpp, provider_openai,
  provider_deepgram, output_modes, autopaste_commands, capture_backends, log_levels,
  keep_audio_formats,
}
use a2text.Config.Normal.{fold_text}
use a2text.Config.Url.{Url, IsHttpUrl, validate_http_url, validate_http_url_iff}
use a2text.Config.Language.{IsLanguage}
use a2text.Config.Validate.{
  validate_voice_output, validate_voice_log_level, is_above, validate_voice_timeouts,
  validate_voice_capture, validate_voice_privacy, validate_voice_provider,
  validate_voice_whisper_cpp, validate_voice_go_whisper, validate_voice_openai,
  validate_voice_deepgram,
}

module _ (to_lower : ℕ → ℕ) (parse : Text → Option Url) where
  -- A base URL that may be left out.
  abbrev IsBaseUrl : Text → Type 0
  IsBaseUrl t = (is_empty t ≡ true) ⊎ IsHttpUrl parse t

  -- What each backend needs.
  abbrev pub HasBackend : VoiceConfig → Type 0
  HasBackend c =
      ((c.provider ≡ provider_go_whisper)
        × (is_empty c.go_whisper.url ≡ false)
        × IsHttpUrl parse c.go_whisper.url)
      ⊎ (c.provider ≡ provider_whisper_cpp)
      ⊎ ((c.provider ≡ provider_openai)
          × (is_empty c.openai.api_key ≡ false)
          × IsBaseUrl c.openai.base_url)
      ⊎ ((c.provider ≡ provider_deepgram)
          × (is_empty c.deepgram.api_key ≡ false)
          × IsBaseUrl c.deepgram.base_url)

  pub record IsValid (c : VoiceConfig) : Type 0 where
    pub mode : IsOneOf c.output.mode output_modes
    pub autopaste : IsOneOf c.output.autopaste_command autopaste_commands
    pub level : (c.log_level ≡ []) ⊎ IsOneOf c.log_level log_levels
    pub language : IsLanguage c.language
    pub convert : pos 1 ≤ℤ c.convert_timeout
    pub transcribe : pos 1 ≤ℤ c.transcribe_timeout
    pub go_whisper : pos 1 ≤ℤ c.go_whisper.timeout
    pub rate : pos 1 ≤ℤ c.capture.sample_rate
    pub channels : pos 1 ≤ℤ c.capture.channels
    pub duration : pos 0 ≤ℤ c.capture.max_duration
    pub threshold : c.capture.silence_threshold_dbfs ≢ above
    pub backend :
        (fold_text to_lower c.capture.backend ≡ [])
        ⊎ IsOneOf (fold_text to_lower c.capture.backend) capture_backends
    pub format : IsOneOf c.privacy.keep_audio_format keep_audio_formats
    pub provider : HasBackend c

  pub validate_voice_output_iff :
      (c : VoiceConfig)
      → (validate_voice_output c ≡ none) ↔ (
          IsOneOf c.output.mode output_modes
          × IsOneOf c.output.autopaste_command autopaste_commands)
  unfolding validate_voice_output
  validate_voice_output_iff c = ground (
    arith,
    one_of_iff c.output.mode output_modes,
    one_of_iff c.output.autopaste_command autopaste_commands,
  )

  empty_or_iff :
      (t : Text) (texts : List Text)
      → ((is_empty t || one_of t texts) ≡ true) ↔ ((t ≡ []) ⊎ IsOneOf t texts)
  empty_or_iff [] texts = ground (arith, one_of_iff [] texts)
  empty_or_iff (c ∷ cs) texts = ground (arith, one_of_iff (c ∷ cs) texts)

  positive_iff : (n : ℤ) → (ltb_ℤ (pos 0) n ≡ true) ↔ (pos 1 ≤ℤ n)
  positive_iff (pos n) = ground arith
  positive_iff (negsuc n) = ground arith

  negative_iff : (n : ℤ) → (ltb_ℤ n (pos 0) ≡ false) ↔ (pos 0 ≤ℤ n)
  negative_iff (pos n) = ground arith
  negative_iff (negsuc n) = ground arith

  is_above_iff : (l : Level) → (is_above l ≡ false) ↔ (l ≢ above)
  unfolding is_above
  is_above_iff Level.below = ground arith
  is_above_iff Level.zero_level = ground arith
  is_above_iff Level.above = ground arith
  is_above_iff Level.not_a_number = ground arith

  pub or_else-none {ℓ} :
      {A : Type ℓ} {b : Option A} (a : Option A) → or_else a b ≡ none → (a ≡ none) × (b ≡ none)
  unfolding or_else
  or_else-none none h = (refl, h)
  or_else-none (some x) h = ground arith

  pub validate_voice_timeouts_iff :
      (c : VoiceConfig)
      → (validate_voice_timeouts c ≡ none) ↔ (
          (pos 1 ≤ℤ c.convert_timeout)
          × (pos 1 ≤ℤ c.transcribe_timeout)
          × (pos 1 ≤ℤ c.go_whisper.timeout))
  unfolding validate_voice_timeouts
  validate_voice_timeouts_iff c = ground (
    arith,
    positive_iff c.convert_timeout,
    positive_iff c.transcribe_timeout,
    positive_iff c.go_whisper.timeout,
  )

  pub validate_voice_capture_iff :
      (c : VoiceConfig)
      → (validate_voice_capture to_lower c ≡ none) ↔ (
          (pos 1 ≤ℤ c.capture.sample_rate)
          × (pos 1 ≤ℤ c.capture.channels)
          × (pos 0 ≤ℤ c.capture.max_duration)
          × (c.capture.silence_threshold_dbfs ≢ above)
          × ((fold_text to_lower c.capture.backend ≡ [])
              ⊎ IsOneOf (fold_text to_lower c.capture.backend) capture_backends))
  unfolding validate_voice_capture
  validate_voice_capture_iff c = ground (
    arith,
    positive_iff c.capture.sample_rate,
    positive_iff c.capture.channels,
    negative_iff c.capture.max_duration,
    is_above_iff c.capture.silence_threshold_dbfs,
    empty_or_iff (fold_text to_lower c.capture.backend) capture_backends,
  )

  optional_url_iff :
      (name : UrlName) (t : Text)
      → ((if is_empty t then none else validate_http_url parse name t) ≡ none) ↔ IsBaseUrl t
  optional_url_iff name t = ground (arith, validate_http_url_iff parse name t)

  pub validate_voice_go_whisper_iff :
      (c : VoiceConfig)
      → (validate_voice_go_whisper parse c ≡ none)
        ↔ ((is_empty c.go_whisper.url ≡ false) × IsHttpUrl parse c.go_whisper.url)
  unfolding validate_voice_go_whisper
  validate_voice_go_whisper_iff c =
      ground (arith, validate_http_url_iff parse UrlName.go_whisper_url c.go_whisper.url)

  pub validate_voice_openai_iff :
      (c : VoiceConfig)
      → (validate_voice_openai parse c ≡ none)
        ↔ ((is_empty c.openai.api_key ≡ false) × IsBaseUrl c.openai.base_url)
  unfolding validate_voice_openai
  validate_voice_openai_iff c =
      ground (arith, optional_url_iff UrlName.openai_base_url c.openai.base_url)

  pub validate_voice_deepgram_iff :
      (c : VoiceConfig)
      → (validate_voice_deepgram parse c ≡ none)
        ↔ ((is_empty c.deepgram.api_key ≡ false) × IsBaseUrl c.deepgram.base_url)
  unfolding validate_voice_deepgram
  validate_voice_deepgram_iff c =
      ground (arith, optional_url_iff UrlName.deepgram_base_url c.deepgram.base_url)

  pub validate_voice_provider_iff :
      (c : VoiceConfig) → (validate_voice_provider parse c ≡ none) ↔ HasBackend c
  unfolding validate_voice_provider validate_voice_whisper_cpp same_text
  validate_voice_provider_iff c = (to, from)
    where
      to : validate_voice_provider parse c ≡ none → HasBackend c
      to h = elim (Bool-cases (same_text c.provider provider_go_whisper)) [
        | inl e ↦ inl (
            let (has, url) = (validate_voice_go_whisper_iff c).0 (ground arith) in
            (same_text-eq _ _ e, has, url))
        | inr e1 ↦ elim (Bool-cases (same_text c.provider provider_whisper_cpp)) [
          | inl e ↦ inr (inl (same_text-eq _ _ e))
          | inr e2 ↦ elim (Bool-cases (same_text c.provider provider_openai)) [
            | inl e ↦ inr (
                inr (
                  inl (
                    let (has, url) = (validate_voice_openai_iff c).0 (ground arith) in
                    (same_text-eq _ _ e, has, url))))
            | inr e3 ↦ elim (Bool-cases (same_text c.provider provider_deepgram)) [
              | inl e ↦ inr (
                  inr (
                    inr (
                      let (has, url) = (validate_voice_deepgram_iff c).0 (ground arith) in
                      (same_text-eq _ _ e, has, url))))
              | inr e4 ↦ ground arith
            ]
          ]
        ]
      ]

      from : HasBackend c → validate_voice_provider parse c ≡ none
      from (inl (e, has, url)) =
          rw (validate_voice_provider, e) ((validate_voice_go_whisper_iff c).1 (has, url))
      from (inr (inl e)) = rw (validate_voice_provider, e) refl
      from (inr (inr (inl (e, has, url)))) =
          rw (validate_voice_provider, e) ((validate_voice_openai_iff c).1 (has, url))
      from (inr (inr (inr (e, has, url)))) =
          rw (validate_voice_provider, e) ((validate_voice_deepgram_iff c).1 (has, url))

  pub validate_voice_log_level_iff :
      (c : VoiceConfig)
      → (validate_voice_log_level c ≡ none) ↔ ((c.log_level ≡ []) ⊎ IsOneOf c.log_level log_levels)
  unfolding validate_voice_log_level
  validate_voice_log_level_iff c = ground (arith, empty_or_iff c.log_level log_levels)

  pub validate_voice_privacy_iff :
      (c : VoiceConfig)
      → (validate_voice_privacy c ≡ none) ↔ IsOneOf c.privacy.keep_audio_format keep_audio_formats
  unfolding validate_voice_privacy
  validate_voice_privacy_iff c =
      ground (arith, one_of_iff c.privacy.keep_audio_format keep_audio_formats)
