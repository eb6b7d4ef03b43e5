-- ===== src/Factory/Cloud.antt =====
-- Which backends a configuration can lead to (internal/infra/factory).
use a2text.Base.{
  ℕ, ◌*◌, ◌^◌, Bool, true, false, not, ◌||◌, Bool-cases, Option, Option-cases, some, same_text,
  same_text-eq, ◌≡◌, refl, ◌∙◌, subst, ◌⊎◌, inl, inr, arith,
}
use a2text.Base.Int.{ℤ, pos, negsuc, ◌≤ℤ◌}
use a2text.Config.Schema.{
  VoiceConfig, VoiceSttRetryConfig, provider_go_whisper, provider_whisper_cpp, provider_openai,
  provider_deepgram,
}
use a2text.Stt.Reply.{Reply}
use a2text.Stt.Retry.{transcribe}
use a2text.Stt.Waits.{AreCapped, transcribe_waits}
use a2text.Factory.Build.{
  Transcriber, BuildError, Made, Models, build, build_go_whisper, build_whisper_cpp,
}
use a2text.Factory.Wiring.{
  or_default, retry_config, is_stream, wrap_with_retry, build_config_of, wrapped, build_transcriber,
}

-- Whether audio can leave the host for a cloud service.
abbrev pub is_cloud : Transcriber → Bool
is_cloud Transcriber.go_whisper = false
is_cloud Transcriber.whisper_cpp = false
is_cloud Transcriber.openai = true
is_cloud Transcriber.deepgram = true
is_cloud Transcriber.deepgram_stream = true
is_cloud (Transcriber.with_fallback t u) = is_cloud t || is_cloud u
is_cloud (Transcriber.retrying c t) = is_cloud t
is_cloud (Transcriber.retrying_streaming c t) = is_cloud t

-- The retries keep the client and its streaming.
pub wrap_with_retry-keeps :
    (t : Transcriber) (c : VoiceSttRetryConfig)
    → (is_stream (wrap_with_retry t c) ≡ is_stream t)
      × (is_cloud (wrap_with_retry t c) ≡ is_cloud t)
unfolding wrap_with_retry is_stream
wrap_with_retry-keeps t c = elim (Bool-cases (is_stream t)) [
  | inl e ↦ rw (wrap_with_retry, e) (refl, refl)
  | inr e ↦ rw (wrap_with_retry, e) (refl, refl)
]

Made-cases :
    (r : Made) → ((t : Transcriber) × (r ≡ Made.made t)) ⊎ ((e : BuildError) × (r ≡ Made.refused e))
Made-cases (Made.made t) = inl (t, refl)
Made-cases (Made.refused e) = inr (e, refl)

-- Nothing local turns into a cloud service without a provider that is one.
IsLocal : Made → Type 0
IsLocal (Made.made t) = is_cloud t ≡ false
IsLocal (Made.refused e) = Unit

not_cloud : (t : Transcriber) → is_cloud t ≡ true → IsLocal (Made.made t) → ⊥
unfolding IsLocal
not_cloud t a b = ground arith

wrapped-IsLocal : (c : VoiceConfig) (r : Made) → IsLocal r → IsLocal (wrapped c r)
unfolding wrapped IsLocal
wrapped-IsLocal c (Made.refused e) h = tt
wrapped-IsLocal c (Made.made t) h = elim (Bool-cases (not c.stt_retry.enabled)) [
  | inl e ↦ rw (wrapped, e) h
  | inr e ↦ rw (wrapped, e) ((wrap_with_retry-keeps t c.stt_retry).1 ∙ h)
]

whisper-IsLocal : (m : Models) (c : VoiceConfig) → IsLocal (build_whisper_cpp m (build_config_of c))
unfolding build_whisper_cpp build_config_of IsLocal
whisper-IsLocal m c = elim (Bool-cases m.whisper_tag) [
  | inr e ↦ rw (build_whisper_cpp, e) tt
  | inl e ↦ elim (Option-cases m.whisper_error) [
    | inl h ↦ rw (build_whisper_cpp, e, h) refl
    | inr (x, h) ↦ rw (build_whisper_cpp, e, h) tt
  ]
]

go_whisper-IsLocal :
    (m : Models) (c : VoiceConfig) → IsLocal (build_go_whisper m (build_config_of c))
unfolding build_go_whisper build_config_of IsLocal
go_whisper-IsLocal m c = refl

build-IsLocal :
    (m : Models) (c : VoiceConfig)
    → same_text c.provider provider_openai ≡ false
    → same_text c.provider provider_deepgram ≡ false
    → IsLocal (build m (build_config_of c))
unfolding build build_config_of IsLocal
build-IsLocal m c o d = elim (Bool-cases (same_text c.provider provider_go_whisper)) [
  | inl g ↦ rw (build, g) (go_whisper-IsLocal m c)
  | inr g ↦ elim (Bool-cases (same_text c.provider provider_whisper_cpp)) [
    | inl w ↦ rw (build, g, w) (whisper-IsLocal m c)
    | inr w ↦ rw (build, g, w, o, d) tt
  ]
]

-- If `BuildTranscriber` gives a transcriber that can send audio to a cloud service, the configured provider is OpenAI
-- or Deepgram.
pub build_transcriber-cloud :
    (m : Models) (c : VoiceConfig) {t : Transcriber}
    → build_transcriber m (some c) ≡ Made.made t
    → is_cloud t ≡ true
    → (c.provider ≡ provider_openai) ⊎ (c.provider ≡ provider_deepgram)
unfolding build_transcriber
build_transcriber-cloud m c {t} e cloud = elim (Bool-cases (same_text c.provider provider_openai)) [
  | inl o ↦ inl (same_text-eq c.provider provider_openai o)
  | inr o ↦ elim (Bool-cases (same_text c.provider provider_deepgram)) [
    | inl d ↦ inr (same_text-eq c.provider provider_deepgram d)
    | inr d ↦ absurd (contradiction (wrapped-IsLocal c _ (build-IsLocal m c o d)))
  ]
]
  where
    contradiction : IsLocal (build_transcriber m (some c)) → ⊥
    contradiction h = not_cloud t cloud (subst IsLocal e h)

or_default_pos : (n d : ℤ) → pos 1 ≤ℤ d → pos 1 ≤ℤ or_default n d
unfolding or_default
or_default_pos (pos n) (pos d) h = ground arith
or_default_pos (pos n) (negsuc d) h = ground arith
or_default_pos (negsuc n) (pos d) h = ground arith
or_default_pos (negsuc n) (negsuc d) h = ground arith

-- With the retries of the factory no wait but the first exceeds the maximum, whatever the configuration says.
pub wrapped_waits {ℓ} :
    {E : Type ℓ} (inner : ℕ → Reply E) (cancelled : ℕ → Bool) (sleep : ℕ → ℤ → Option E)
    (is_retryable : E → Bool) (c : VoiceSttRetryConfig)
    → let cfg = retry_config c in
      (pos 1 ≤ℤ cfg.max_delay)
      × AreCapped cfg.max_delay cfg.initial_delay
          (transcribe inner cancelled sleep is_retryable cfg).waits
unfolding retry_config
wrapped_waits inner cancelled sleep is_retryable c =
    let positive = or_default_pos c.max_delay (pos (5 * 10 ^ 9)) (omega arith) in
    (positive, transcribe_waits inner cancelled sleep is_retryable (retry_config c) positive)
