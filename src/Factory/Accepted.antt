-- ===== src/Factory/Accepted.antt =====
-- The construction from a configuration that the validation accepts (internal/infra/factory,
-- internal/infra/config/config.go).
use a2text.Base.{
  ℕ, true, Bool-cases, Option, some, Text, one_of, same_text, ◌≡◌, ◌≢◌, refl, ap, ◌∙◌, inl, inr,
  arith,
}
use a2text.Base.Int.{ℤ, pos, negsuc, ◌≤ℤ◌, ltb_ℤ}
use a2text.Config.Schema.{VoiceConfig, provider_whisper_cpp}
use a2text.Config.Url.{Url}
use a2text.Config.Valid.{IsValid}
use a2text.Factory.Build.{
  Transcriber, Made, Models, build, build_openai, build_deepgram, build_deepgram_stream,
  build_go_whisper,
}
use a2text.Factory.Wiring.{
  build_config_of, wrapped, build_transcriber, Converter, build_converter, resolve_temp_dir,
}

wrapped-made :
    (c : VoiceConfig) (t : Transcriber)
    → (u : Transcriber) × (wrapped c (Made.made t) ≡ Made.made u)
unfolding wrapped
wrapped-made c t = (_, refl)

build_accepted :
    (to_lower : ℕ → ℕ) (parse : Text → Option Url) (m : Models) (c : VoiceConfig)
    → IsValid to_lower parse c
    → c.provider ≢ provider_whisper_cpp
    → (t : Transcriber) × (build m (build_config_of c) ≡ Made.made t)
unfolding build build_config_of build_go_whisper build_openai build_deepgram build_deepgram_stream
    same_text
build_accepted to_lower parse m c v other = elim v.provider [
  | inl (e, has, url) ↦ (Transcriber.go_whisper, rw (build, e) refl)
  | inr (inl e) ↦ absurd (other e)
  | inr (inr (inl (e, has, url))) ↦ (Transcriber.openai, rw (build, e, build_openai, has) refl)
  | inr (inr (inr (e, has, url))) ↦ elim (Bool-cases c.deepgram.streaming) [
    | inl s ↦ (Transcriber.deepgram_stream, rw (build, e, s, build_deepgram_stream, has) refl)
    | inr s ↦ (Transcriber.deepgram, rw (build, e, s, build_deepgram, has) refl)
  ]
]

-- An accepted configuration of another provider than whisper.cpp always gives a transcriber.
pub build_transcriber_accepted :
    (to_lower : ℕ → ℕ) (parse : Text → Option Url) (m : Models) (c : VoiceConfig)
    → IsValid to_lower parse c
    → c.provider ≢ provider_whisper_cpp
    → (t : Transcriber) × (build_transcriber m (some c) ≡ Made.made t)
unfolding build_transcriber
build_transcriber_accepted to_lower parse m c v other =
    let (t, e) = build_accepted to_lower parse m c v other in
    let (u, f) = wrapped-made c t in (u, ap (wrapped c) e ∙ f)

-- A converter that works.
pub data IsReady (dir : Text) (timeout : ℤ) : Converter → Type 0 where
  passes : IsReady dir timeout Converter.passthrough
  converts : IsReady dir timeout (Converter.ffmpeg dir timeout)

-- An accepted configuration always gives a converter.
pub build_converter-IsReady :
    (to_lower : ℕ → ℕ) (parse : Text → Option Url) (c : VoiceConfig) (temp_dir system : Text)
    → IsValid to_lower parse c
    → IsReady
        (resolve_temp_dir temp_dir c.temp_dir system)
        c.convert_timeout
        (build_converter (some c) temp_dir system)
unfolding build_converter one_of same_text
build_converter-IsReady to_lower parse c temp_dir system v = elim v.provider [
  | inl (e, has, url) ↦ rw (build_converter, e) IsReady.passes
  | inr (inl e) ↦ rw (build_converter, e, positive c.convert_timeout v.convert) IsReady.converts
  | inr (inr (inl (e, has, url))) ↦ rw (build_converter, e) IsReady.passes
  | inr (inr (inr (e, has, url))) ↦ rw (build_converter, e) IsReady.passes
]
  where
    positive : (n : ℤ) → pos 1 ≤ℤ n → ltb_ℤ (pos 0) n ≡ true
    positive (pos n) h = ground arith
    positive (negsuc n) h = ground arith
