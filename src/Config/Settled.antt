-- ===== src/Config/Settled.antt =====
-- Normalising a configuration twice (internal/infra/config/config.go).
use a2text.Base.{
  ℕ, leb, ltb, ◌&&◌, not, ap, [], ◌∷◌, Bool, true, false, Text, codes, is_empty, map, is_space,
  trim_space, trim_space-trim_space, ◌≡◌, refl, ◌∙◌, inl, inr, Bool-cases, arith, if◌then◌else◌,
}
use a2text.Base.Int.{ℤ, pos, negsuc}
use a2text.Config.Schema.{VoiceConfig, default_capture_sample_rate, default_daemon_shutdown_grace}
use a2text.Config.Normal.{
  or_text, or_number, apply_voice_config_defaults, IsLowering, fold_text, normalize_voice_config,
  fold_text_idem,
}

or_number_idem : (n d : ℤ) → or_number (or_number n d) d ≡ or_number n d
unfolding or_number
or_number_idem (pos n) (pos d) = ground arith
or_number_idem (pos n) (negsuc d) = ground arith
or_number_idem (negsuc n) d = refl

-- A text of ASCII without capital letters.
is_plain : Text → Bool
is_plain [] = true
is_plain (c ∷ cs) = let rest = is_plain cs in ltb c 128 && not (leb 65 c && leb c 90) && rest

module _ (to_lower : ℕ → ℕ) (law : IsLowering to_lower) where
  map_plain : (t : Text) → is_plain t ≡ true → map to_lower t ≡ t
  unfolding is_plain
  map_plain [] h = refl
  map_plain (c ∷ cs) h = ground (arith, law.ascii c, map_plain cs)

  fold_text_plain : (t : Text) → trim_space t ≡ t → is_plain t ≡ true → fold_text to_lower t ≡ t
  unfolding fold_text
  fold_text_plain t trimmed h = ap (map to_lower) trimmed ∙ map_plain t h

  fold_text-clipboard : fold_text to_lower (codes "clipboard") ≡ codes "clipboard"
  unfolding trim_space is_space is_plain
  fold_text-clipboard = fold_text_plain (codes "clipboard") refl refl

  fold_text-auto : fold_text to_lower (codes "auto") ≡ codes "auto"
  unfolding trim_space is_space is_plain
  fold_text-auto = fold_text_plain (codes "auto") refl refl

  fold_text-wav : fold_text to_lower (codes "wav") ≡ codes "wav"
  unfolding trim_space is_space is_plain
  fold_text-wav = fold_text_plain (codes "wav") refl refl

  or_text-fold_text :
      (t d : Text)
      → fold_text to_lower d ≡ d
      → or_text (fold_text to_lower (or_text (fold_text to_lower t) d)) d
        ≡ or_text (fold_text to_lower t) d
  unfolding or_text
  or_text-fold_text t d h = elim (Bool-cases (is_empty (fold_text to_lower t))) [
    | inl e ↦ rw (or_text, e, h) (twice (is_empty d))
    | inr e ↦ rw (or_text, e, fold_text_idem to_lower law t, e) refl
  ]
    where
      twice : (b : Bool) → (if b then d else d) ≡ d
      twice true = refl
      twice false = refl

  -- Normalising twice is normalising once.
  pub normalize_idem :
      (c : VoiceConfig)
      → normalize_voice_config to_lower (normalize_voice_config to_lower c)
        ≡ normalize_voice_config to_lower c
  unfolding normalize_voice_config apply_voice_config_defaults
  normalize_idem c =
      let d = normalize_voice_config to_lower c in
      λ i. record d {
        provider = trim_space-trim_space c.provider i;
        language = trim_space-trim_space c.language i;
        model_path = trim_space-trim_space c.model_path i;
        go_whisper = record d.go_whisper {
          url = trim_space-trim_space c.go_whisper.url i;
          model = trim_space-trim_space c.go_whisper.model i;
        };
        openai = record d.openai {
          api_key = trim_space-trim_space c.openai.api_key i;
          base_url = trim_space-trim_space c.openai.base_url i;
          model = trim_space-trim_space c.openai.model i;
        };
        deepgram = record d.deepgram {
          api_key = trim_space-trim_space c.deepgram.api_key i;
          base_url = trim_space-trim_space c.deepgram.base_url i;
          model = trim_space-trim_space c.deepgram.model i;
        };
        temp_dir = trim_space-trim_space c.temp_dir i;
        log_level = fold_text_idem to_lower law c.log_level i;
        capture = record d.capture {
          backend = or_text-fold_text c.capture.backend (codes "auto") fold_text-auto i;
          sample_rate = or_number_idem c.capture.sample_rate default_capture_sample_rate i;
          channels = or_number_idem c.capture.channels (pos 1) i;
        };
        output = record d.output {
          mode = or_text-fold_text c.output.mode (codes "clipboard") fold_text-clipboard i;
          autopaste_command =
              or_text-fold_text c.output.autopaste_command (codes "auto") fold_text-auto i;
        };
        daemon = record d.daemon {
          shutdown_grace_period =
              or_number_idem c.daemon.shutdown_grace_period default_daemon_shutdown_grace i;
        };
        privacy = record d.privacy {
          keep_audio_dir = trim_space-trim_space c.privacy.keep_audio_dir i;
          keep_audio_format =
              or_text-fold_text c.privacy.keep_audio_format (codes "wav") fold_text-wav i;
        };
      }
