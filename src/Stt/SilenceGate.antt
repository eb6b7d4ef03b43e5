-- ===== src/Stt/SilenceGate.antt =====
-- `silenceGate` of internal/infra/factory/silence_gate.go. Loudness is a float: its type, its order and
-- its test for zero are the section's parameters, and so is the measurement of a file, `none` where
-- it fails.
use a2text.Base.{
  Bool, true, false, Option, Option-cases, none, some, String, ◌≡◌, refl, ◌⊎◌, inl, inr,
  if◌then◌else◌, Bool-cases,
}
use a2text.Stt.Reply.{Reply, ok}

-- A transcriber as the voice cycle sees it: the call on a file and, if it can stream, the call on PCM.
pub record Transcriber {ℓ} (E : Type ℓ) (Pcm : Type ℓ) : Type ℓ where
  pub transcribe : String → String → Reply E
  pub stream : Option (Pcm → String → Reply E)

module _ {ℓ} {E Pcm Loudness : Type ℓ} (lt : Loudness → Loudness → Bool) (is_zero : Loudness → Bool)
    (rms : String → Option Loudness) where
  -- `Transcribe` of the gate: an unmeasurable file goes on to the backend, a quiet one gives no text.
  gate_transcribe : Transcriber E Pcm → Loudness → String → String → Reply E
  gate_transcribe inner threshold path lang = elim (rms path) [
    | none ↦ inner.transcribe path lang
    | some dbfs ↦ if lt dbfs threshold then ok "" else inner.transcribe path lang
  ]

  -- `WrapWithSilenceGate`: a zero threshold gives the backend itself; a backend that streams gives a
  -- `streamingSilenceGate`, which passes the stream through.
  unfoldable pub wrap_with_silence_gate : Transcriber E Pcm → Loudness → Transcriber E Pcm
  unfolding gate_transcribe
  wrap_with_silence_gate inner threshold =
      if is_zero threshold
      then inner
      else record { transcribe = gate_transcribe inner threshold; stream = inner.stream }

  gate_transcribe_cases :
      (inner : Transcriber E Pcm) (threshold : Loudness) (path lang : String)
      → ((gate_transcribe inner threshold path lang ≡ ok "")
          × ((dbfs : Loudness) × (rms path ≡ some dbfs) × (lt dbfs threshold ≡ true)))
        ⊎ ((gate_transcribe inner threshold path lang ≡ inner.transcribe path lang)
            × ((rms path ≡ none)
                ⊎ ((dbfs : Loudness) × (rms path ≡ some dbfs) × (lt dbfs threshold ≡ false))))
  unfolding gate_transcribe
  gate_transcribe_cases inner threshold path lang = elim (Option-cases (rms path)) [
    | inl unmeasured ↦ inr (rw (unmeasured, gate_transcribe) refl, inl unmeasured)
    | inr (dbfs, measured) ↦ elim (Bool-cases (lt dbfs threshold)) [
      | inl quiet ↦ inl (rw (measured, gate_transcribe) (rw quiet refl), (dbfs, measured, quiet))
      | inr loud ↦ inr (rw (measured, gate_transcribe) (rw loud refl), inr (dbfs, measured, loud))
    ]
  ]

  -- The gate withholds a file from the backend, and gives the empty text for it, exactly where the gate is
  -- on and the file is measured below the threshold; in every other case the answer is the backend's,
  -- and streaming is never touched.
  pub wrap_with_silence_gate_lem :
      (inner : Transcriber E Pcm) (threshold : Loudness) (path lang : String)
      → let gated = wrap_with_silence_gate inner threshold in
        (gated.stream ≡ inner.stream)
        × (((gated.transcribe path lang ≡ ok "")
              × (is_zero threshold ≡ false)
              × ((dbfs : Loudness) × (rms path ≡ some dbfs) × (lt dbfs threshold ≡ true)))
            ⊎ ((gated.transcribe path lang ≡ inner.transcribe path lang)
                × ((is_zero threshold ≡ true)
                    ⊎ (rms path ≡ none)
                    ⊎ ((dbfs : Loudness) × (rms path ≡ some dbfs) × (lt dbfs threshold ≡ false)))))
  unfolding wrap_with_silence_gate
  wrap_with_silence_gate_lem inner threshold path lang = elim (Bool-cases (is_zero threshold)) [
    | inl off ↦ rw off (refl, inr (refl, inl refl))
    | inr on ↦ elim (gate_transcribe_cases inner threshold path lang) [
      | inl (same, (dbfs, measured, quiet)) ↦
          rw on (refl, inl (same, refl, (dbfs, measured, quiet)))
      | inr (same, why) ↦ rw on (refl, inr (same, inr why))
    ]
  ]
