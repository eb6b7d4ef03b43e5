-- ===== src/Stt/Fallback.antt =====
-- `FallbackTranscriber` of pkg/stt/fallback.go. The answers of the two backends, and whether the
-- context is cancelled when the first has failed, are arguments.
use a2text.Base.{
  Bool, true, false, Option, none, some, List, [], ◌∷◌, String, ◌≡◌, refl, ◌↔◌, ◌⊎◌, inl, inr,
  arith, if◌then◌else◌,
}
use a2text.Stt.Reply.{Reply, ok, failed}

-- Which backend was called.
pub data Backend : Type 0 where
  primary secondary : Backend

-- `Transcribe` returns a text, the first error under a dead context, or both errors.
pub data Result {ℓ} (E : Type ℓ) : Type ℓ where
  text : String → Result E
  aborted : E → Result E
  both_failed : E → E → Result E

module _ {ℓ} {E : Type ℓ} where
  after_secondary : E → Reply E → Result E
  after_secondary first (ok t) = text t
  after_secondary first (failed e) = both_failed first e

  -- The result, and the backends called, in order.
  unfoldable pub transcribe : Reply E → Bool → Reply E → Result E × List Backend
  unfolding after_secondary
  transcribe (ok t) cancelled second = (text t, primary ∷ [])
  transcribe (failed e) cancelled second =
      if cancelled
      then (aborted e, primary ∷ [])
      else (after_secondary e second, primary ∷ secondary ∷ [])

  -- `DetectLanguage` keeps only the error of the backend that was called last.
  detect_language : Reply E → Bool → Reply E → Reply E
  detect_language (ok t) cancelled second = ok t
  detect_language (failed e) cancelled second = if cancelled then failed e else second

  -- `Close` calls both backends, and joins the errors that there are.
  join : Option E → List E → List E
  join none es = es
  join (some e) es = e ∷ es

  close : Option E → Option E → List E
  unfolding join
  close first second = join first (join second [])

  -- A text comes back exactly if the first backend gives it, or the first fails under a live context and
  -- the second gives it.
  transcribe_text_iff :
      (first second : Reply E) (cancelled : Bool) (t : String)
      → ((transcribe first cancelled second).0 ≡ text t) ↔ (
          (first ≡ ok t) ⊎ (((e : E) × (first ≡ failed e)) × (cancelled ≡ false) × (second ≡ ok t)))
  unfolding transcribe
  transcribe_text_iff (ok x) second cancelled t = ground arith
  transcribe_text_iff (failed e) (ok y) cancelled t = ground arith
  transcribe_text_iff (failed e) (failed f) cancelled t = ground arith

  -- The second backend is called exactly if the first fails under a live context, and then decides between its own
  -- text and both errors; the first is always called, and called first.
  pub transcribe_backends :
      (first second : Reply E) (cancelled : Bool)
      → (let (result, called) = transcribe first cancelled second in
          ((called ≡ primary ∷ secondary ∷ [])
            × ((e : E) × (first ≡ failed e)
                × (cancelled ≡ false)
                × (((t : String) × (second ≡ ok t) × (result ≡ text t))
                    ⊎ ((f : E) × (second ≡ failed f) × (result ≡ both_failed e f)))))
          ⊎ ((called ≡ primary ∷ []) × (((t : String) × (first ≡ ok t)) ⊎ (cancelled ≡ true))))
  unfolding transcribe
  transcribe_backends (ok t) second cancelled = inr (refl, inl (t, refl))
  transcribe_backends (failed e) second true = inr (refl, inr refl)
  transcribe_backends (failed e) (ok t) false = inl (refl, (e, refl, refl, inl (t, refl, refl)))
  transcribe_backends (failed e) (failed f) false = inl (refl, (e, refl, refl, inr (f, refl, refl)))
