-- ===== src/Stt/Waits.antt =====
-- The waits between attempts (pkg/stt/retry.go).
use a2text.Base.{
  ℕ, zero, suc, ◌*◌, ◌^◌, ◌<◌, Bool, Option, none, some, List, [], ◌∷◌, All, ◌≡◌, inl, inr, arith,
}
use a2text.Base.Int.{ℤ, pos, ◌≤ℤ◌}
use a2text.Stt.Reply.{Reply, Reply-cases}
use a2text.Stt.Retry.{next_backoff, RetryConfig, loop, transcribe, attempts_of}

-- With a positive maximum the next delay never exceeds it, also where doubling overflows.
next_backoff_capped :
    (current max_delay : ℤ) → pos 1 ≤ℤ max_delay → next_backoff current max_delay ≤ℤ max_delay
unfolding next_backoff
next_backoff_capped current max_delay h = ground arith

-- With no maximum the delay doubles, as long as the double is an int64.
next_backoff_uncapped : (d : ℕ) → d < 2 ^ 62 → next_backoff (pos d) (pos 0) ≡ pos (2 * d)
unfolding next_backoff
next_backoff_uncapped d h = ground arith

-- From a delay on: the first wait is that delay, and the later ones do not exceed the maximum.
abbrev pub AreCapped : ℤ → ℤ → List ℤ → Type 0
AreCapped max_delay delay [] = Unit
AreCapped max_delay delay (d ∷ ds) = (d ≡ delay) × All (λ x. x ≤ℤ max_delay) ds

AreCapped-All :
    (max_delay delay : ℤ) (ds : List ℤ)
    → delay ≤ℤ max_delay
    → AreCapped max_delay delay ds
    → All (λ x. x ≤ℤ max_delay) ds
AreCapped-All max_delay delay [] h c = tt
AreCapped-All max_delay delay (d ∷ ds) h c = (rw (c.0) h, c.1)

module _ {ℓ} {E : Type ℓ} (inner : ℕ → Reply E) (cancelled : ℕ → Bool) (sleep : ℕ → ℤ → Option E)
    (is_retryable : E → Bool) where
  loop_waits :
      (max_attempts : ℕ) (max_delay : ℤ) (left attempt : ℕ) (delay : ℤ) (last : Option E)
      → pos 1 ≤ℤ max_delay
      → AreCapped max_delay delay
          (loop inner cancelled sleep is_retryable max_attempts max_delay left attempt delay
            last).waits
  unfolding loop
  loop_waits max_attempts max_delay zero attempt delay last h = tt
  loop_waits max_attempts max_delay (suc left) attempt delay last h =
      elim (Reply-cases (inner attempt)) [
        | inl (t, answered) ↦ ground arith
        | inr (e, broke) ↦
            let next = next_backoff delay max_delay in
            let rest =
              AreCapped-All max_delay next _ (next_backoff_capped delay max_delay h)
                (loop_waits max_attempts max_delay left (suc attempt) next (some e) h) in
            ground arith
      ]

  -- The first wait is the initial delay, whatever the maximum; if there is a positive maximum, no later
  -- wait exceeds it, also where doubling overflows an int64.
  pub transcribe_waits :
      (cfg : RetryConfig)
      → pos 1 ≤ℤ cfg.max_delay
      → AreCapped cfg.max_delay cfg.initial_delay
          (transcribe inner cancelled sleep is_retryable cfg).waits
  unfolding transcribe
  transcribe_waits cfg h =
      loop_waits (attempts_of cfg) cfg.max_delay (attempts_of cfg) 1 cfg.initial_delay none h
