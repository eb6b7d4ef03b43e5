-- ===== src/Config/Normal.antt =====
-- `MigrateLegacyVoiceProvider`, `normalizeVoiceConfig` and `applyVoiceConfigDefaults`
-- (internal/infra/config/config.go). `unicode.ToLower` of a rune is a parameter.
use a2text.Base.{
  ℕ, ◌+◌, ◌<◌, leb, ◌&&◌, Bool, true, false, [], ◌∷◌, map, Text, codes, same_text, is_empty,
  is_space, onto, trim_left, trim_right, trim_space, trim_space-trim_space, ◌≡◌, refl, ap, ◌∙◌, inl,
  inr, ◌==◌, Bool-cases, arith, if◌then◌else◌,
}
use a2text.Base.Int.{ℤ, pos, negsuc}
use a2text.Config.Schema.{
  VoiceConfig, provider_deepgram, legacy_provider_deepgram_stream, default_capture_sample_rate,
  default_daemon_shutdown_grace,
}

unfoldable pub migrate_legacy_voice_provider : VoiceConfig → VoiceConfig
migrate_legacy_voice_provider c =
    if same_text c.provider legacy_provider_deepgram_stream
    then record c {
      provider = provider_deepgram;
      deepgram = record c.deepgram { streaming = true };
    }
    else c

-- Migrating twice is migrating once.
pub migrate_idem :
    (c : VoiceConfig)
    → migrate_legacy_voice_provider (migrate_legacy_voice_provider c)
      ≡ migrate_legacy_voice_provider c
unfolding migrate_legacy_voice_provider same_text
migrate_idem c = elim (Bool-cases (same_text c.provider legacy_provider_deepgram_stream)) [
  | inl e ↦ rw (migrate_legacy_voice_provider, e) refl
  | inr e ↦ rw (migrate_legacy_voice_provider, e) (rw (migrate_legacy_voice_provider, e) refl)
]

is_zero : ℤ → Bool
is_zero (pos n) = n == 0
is_zero (negsuc n) = false

unfoldable pub or_text : Text → Text → Text
or_text t d = if is_empty t then d else t

unfoldable pub or_number : ℤ → ℤ → ℤ
unfolding is_zero
or_number n d = if is_zero n then d else n

unfoldable pub apply_voice_config_defaults : VoiceConfig → VoiceConfig
unfolding or_text or_number
apply_voice_config_defaults c = record c {
  output = record c.output {
    mode = or_text c.output.mode (codes "clipboard");
    autopaste_command = or_text c.output.autopaste_command (codes "auto");
  };
  capture = record c.capture {
    backend = or_text c.capture.backend (codes "auto");
    sample_rate = or_number c.capture.sample_rate default_capture_sample_rate;
    channels = or_number c.capture.channels (pos 1);
  };
  privacy = record c.privacy {
    keep_audio_format = or_text c.privacy.keep_audio_format (codes "wav");
  };
  daemon = record c.daemon {
    shutdown_grace_period = or_number c.daemon.shutdown_grace_period default_daemon_shutdown_grace;
  };
}

-- What is used of `unicode.ToLower`: it leaves ASCII but for its capital letters, it leaves the result of lowering a
-- rune, and it neither makes nor takes away white space.
pub record IsLowering (to_lower : ℕ → ℕ) : Type 0 where
  pub ascii : (c : ℕ) → c < 128 → to_lower c ≡ (if leb 65 c && leb c 90 then c + 32 else c)
  pub again : (c : ℕ) → to_lower (to_lower c) ≡ to_lower c
  pub space : (c : ℕ) → is_space (to_lower c) ≡ is_space c

-- The rule for ASCII alone.
unfoldable pub lower_ascii : ℕ → ℕ
lower_ascii c = if leb 65 c && leb c 90 then c + 32 else c

pub lower_ascii-IsLowering : IsLowering lower_ascii
unfolding lower_ascii is_space
lower_ascii-IsLowering = record {
  ascii = λ c _. refl;
  again = λ c. ground arith;
  space = λ c. ground arith;
}

module _ (to_lower : ℕ → ℕ) where
  -- `strings.ToLower(strings.TrimSpace(t))`
  unfoldable pub fold_text : Text → Text
  fold_text t = map to_lower (trim_space t)

  unfoldable pub normalize_voice_config : VoiceConfig → VoiceConfig
  unfolding fold_text
  normalize_voice_config c = apply_voice_config_defaults (record c {
    provider = trim_space c.provider;
    language = trim_space c.language;
    model_path = trim_space c.model_path;
    go_whisper = record c.go_whisper {
      url = trim_space c.go_whisper.url;
      model = trim_space c.go_whisper.model;
    };
    openai = record c.openai {
      api_key = trim_space c.openai.api_key;
      base_url = trim_space c.openai.base_url;
      model = trim_space c.openai.model;
    };
    deepgram = record c.deepgram {
      api_key = trim_space c.deepgram.api_key;
      base_url = trim_space c.deepgram.base_url;
      model = trim_space c.deepgram.model;
    };
    temp_dir = trim_space c.temp_dir;
    log_level = fold_text c.log_level;
    capture = record c.capture { backend = fold_text c.capture.backend };
    output = record c.output {
      mode = fold_text c.output.mode;
      autopaste_command = fold_text c.output.autopaste_command;
    };
    privacy = record c.privacy {
      keep_audio_dir = trim_space c.privacy.keep_audio_dir;
      keep_audio_format = fold_text c.privacy.keep_audio_format;
    };
  })

  module _ (law : IsLowering to_lower) where
    map_idem : (t : Text) → map to_lower (map to_lower t) ≡ map to_lower t
    map_idem [] = refl
    map_idem (c ∷ cs) = cc (law.again c, map_idem cs)

    trim_left-map : (t : Text) → trim_left (map to_lower t) ≡ map to_lower (trim_left t)
    unfolding trim_left
    trim_left-map [] = refl
    trim_left-map (c ∷ cs) = ground (arith, law.space c, trim_left-map cs)

    onto-map : (c : ℕ) (t : Text) → onto (to_lower c) (map to_lower t) ≡ map to_lower (onto c t)
    unfolding onto
    onto-map c [] = ground (arith, law.space c)
    onto-map c (d ∷ ds) = refl

    trim_right-map : (t : Text) → trim_right (map to_lower t) ≡ map to_lower (trim_right t)
    unfolding trim_right
    trim_right-map [] = refl
    trim_right-map (c ∷ cs) = rw (trim_right-map cs) (onto-map c (trim_right cs))

    -- Trimming goes past lowering.
    trim_space-map : (t : Text) → trim_space (map to_lower t) ≡ map to_lower (trim_space t)
    unfolding trim_space
    trim_space-map t = ap trim_right (trim_left-map t) ∙ trim_right-map (trim_left t)

    pub fold_text_idem : (t : Text) → fold_text (fold_text t) ≡ fold_text t
    unfolding fold_text
    fold_text_idem t =
        ap (map to_lower)
          (trim_space-map (trim_space t) ∙ ap (map to_lower) (trim_space-trim_space t))
        ∙ map_idem (trim_space t)
