-- ===== src/Stt/Classifier.antt =====
-- `DefaultRetryClassifier` and `sleepWithContext` of pkg/stt/retry.go.
use a2text.Base.{Bool, true, false, ◌||◌, Option, none, ◌≡◌, ◌↔◌, arith, String, if◌then◌else◌}
use a2text.Base.Int.{ℤ, pos, ltb_ℤ}

-- What `errors.Is` and `errors.As` find of an error and those that it wraps.
pub record ErrorShape : Type 0 where
  pub is_nil : Bool
  pub canceled : Bool
  pub deadline_exceeded : Bool
  pub unexpected_eof : Bool
  pub net_timeout : Bool
  pub op_error : Bool

unfoldable default_retry_classifier : ErrorShape → Bool
default_retry_classifier e =
    if e.is_nil
    then false
    else if e.canceled || e.deadline_exceeded
    then false
    else if e.unexpected_eof
    then true
    else if e.net_timeout
    then true
    else e.op_error

-- `sleepWithContext`: the argument is the context's error, if it ends before the timer.
unfoldable sleep_with_context : Option String → ℤ → Option String
sleep_with_context ended d = if ltb_ℤ (pos 0) d then ended else none

-- An error is retried exactly if it is one, is no cancellation and no deadline, and is a short read, a network timeout
-- or a failed network operation.
default_retry_classifier_iff :
    (e : ErrorShape)
    → (default_retry_classifier e ≡ true) ↔ (
        (e.is_nil ≡ false)
        × (e.canceled ≡ false)
        × (e.deadline_exceeded ≡ false)
        × ((e.unexpected_eof || e.net_timeout || e.op_error) ≡ true))
unfolding default_retry_classifier
default_retry_classifier_iff e = ground arith
