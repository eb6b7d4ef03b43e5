-- ===== src/Examples/Factory.antt =====
-- Transcribers that concrete configurations lead to.
use a2text.Base.{
  ℕ, true, false, none, some, String, same_text, ◌≡◌, ◌≢◌, refl, ap, trim_space, is_space, ◌⊎◌,
  arith,
}
use a2text.Base.Int.{pos, ◌≤ℤ◌}
use a2text.Config.Schema.{provider_whisper_cpp, provider_openai, provider_deepgram}
use a2text.Config.Normal.{
  lower_ascii, migrate_legacy_voice_provider, normalize_voice_config, apply_voice_config_defaults,
}
use a2text.Stt.Reply.{Reply, failed}
use a2text.Stt.Retry.{transcribe}
use a2text.Stt.Waits.{AreCapped}
use a2text.Factory.Build.{Transcriber, Made, Models, build, build_deepgram_stream}
use a2text.Factory.Wiring.{retry_config, build_transcriber, build_config_of, wrapped}
use a2text.Factory.Cloud.{build_transcriber-cloud, wrapped_waits}
use a2text.Factory.Accepted.{build_transcriber_accepted}
use a2text.Examples.Config.{settled_old_style, settled-IsValid, parse_one}

abbrev models : Models
models = record { go_whisper_error = none; whisper_error = none; whisper_tag = true }

-- The provider is Deepgram.
not_local : settled_old_style.provider ≢ provider_whisper_cpp
unfolding same_text trim_space is_space migrate_legacy_voice_provider normalize_voice_config
    apply_voice_config_defaults
not_local e = ground (arith, ap (λ t. same_text t provider_whisper_cpp) e)

build_transcriber_accepted_example :
    (t : Transcriber) × (build_transcriber models (some settled_old_style) ≡ Made.made t)
build_transcriber_accepted_example =
    build_transcriber_accepted lower_ascii parse_one models settled_old_style settled-IsValid
      not_local

build_transcriber-cloud_example :
    (settled_old_style.provider ≡ provider_openai)
    ⊎ (settled_old_style.provider ≡ provider_deepgram)
unfolding same_text trim_space is_space migrate_legacy_voice_provider normalize_voice_config
    apply_voice_config_defaults build_transcriber build build_config_of build_deepgram_stream
    wrapped
build_transcriber-cloud_example =
    build_transcriber-cloud models settled_old_style {t = Transcriber.deepgram_stream} refl refl

-- A backend that always fails.
abbrev dead : ℕ → Reply String
dead n = failed "429"

wrapped_waits_example :
    (let cfg = retry_config settled_old_style.stt_retry in
      (pos 1 ≤ℤ cfg.max_delay)
      × AreCapped cfg.max_delay cfg.initial_delay
          (transcribe dead (λ _. false) (λ _ _. none) (λ _. true) cfg).waits)
wrapped_waits_example =
    wrapped_waits dead (λ _. false) (λ _ _. none) (λ _. true) settled_old_style.stt_retry
