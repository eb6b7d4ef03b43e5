-- ===== src/Stt/Retry.antt =====
-- `RetryingTranscriber` of pkg/stt/retry.go. Durations are int64, with their wrap-around. The backend,
-- the context, the sleep and the classifier are the section's parameters: the backend's answer to each
-- attempt, whether the context is cancelled when that attempt has failed, and the error of the sleep
-- that follows it, if any.
use a2text.Base.{
  ℕ, zero, suc, Bool, not, ◌&&◌, Option, none, some, List, [], ◌∷◌, String, leb, if◌then◌else◌,
}
use a2text.Base.Int.{ℤ, pos, negsuc, ◌+ℤ◌, ltb_ℤ, wrap64}
use a2text.Stt.Reply.{Reply, ok, failed}

-- `nextBackoff`: twice the delay, cut to the maximum if there is one.
unfoldable pub next_backoff : ℤ → ℤ → ℤ
next_backoff current max_delay =
    let doubled = wrap64 (current +ℤ current) in
    if ltb_ℤ (pos 0) max_delay && ltb_ℤ max_delay doubled then max_delay else doubled

pub record RetryConfig : Type 0 where
  pub initial_delay : ℤ
  pub max_delay : ℤ
  pub max_attempts : ℤ

-- `NewRetryingTranscriber` makes one attempt of none or fewer.
unfoldable pub attempts_of : RetryConfig → ℕ
attempts_of cfg = elim (cfg.max_attempts) [ pos n ↦ if leb n 0 then 1 else n | negsuc n ↦ 1 ]

-- How `Transcribe` ends: with a text, with the error that was not to be retried, with the sleep's
-- error, or with the last error after all attempts.
pub data Result {ℓ} (E : Type ℓ) : Type ℓ where
  text : String → Result E
  gave_up : E → Result E
  sleep_failed : E → Result E
  exhausted : ℕ → Option E → Result E

-- The result, the number of calls of the backend, and the waits that were begun.
pub record Report {ℓ} (E : Type ℓ) : Type ℓ where
  pub result : Result E
  pub calls : ℕ
  pub waits : List ℤ

abbrev finished {ℓ} : {E : Type ℓ} → Result E → Report E
finished r = record { result = r; calls = 1; waits = [] }

abbrev after_wait {ℓ} : {E : Type ℓ} → ℤ → Report E → Report E
after_wait d r = record r { calls = suc r.calls; waits = d ∷ r.waits }

module _ {ℓ} {E : Type ℓ} (inner : ℕ → Reply E) (cancelled : ℕ → Bool) (sleep : ℕ → ℤ → Option E)
    (is_retryable : E → Bool) where
  -- The loop over the attempts, on the number of rounds left.
  unfoldable pub loop : ℕ → ℤ → ℕ → ℕ → ℤ → Option E → Report E
  loop max_attempts max_delay zero attempt delay last = record {
    result = exhausted max_attempts last;
    calls = 0;
    waits = [];
  }
  loop max_attempts max_delay (suc left) attempt delay last = elim (inner attempt) [
    | ok t ↦ finished (text t)
    | failed e ↦
        let again = after_wait delay (
          loop max_attempts max_delay left (suc attempt) (next_backoff delay max_delay) (some e)) in
        if cancelled attempt
        then finished (gave_up e)
        else if leb max_attempts attempt
        then finished (exhausted max_attempts (some e))
        else if not (is_retryable e)
        then finished (gave_up e)
        else elim (sleep attempt delay) [
          | some x ↦ record { result = sleep_failed x; calls = 1; waits = delay ∷ [] }
          | none ↦ again
        ]
  ]

  unfoldable pub transcribe : RetryConfig → Report E
  unfolding attempts_of
  transcribe cfg =
      let max_attempts = attempts_of cfg in
      loop max_attempts cfg.max_delay max_attempts 1 cfg.initial_delay none
