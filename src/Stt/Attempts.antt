-- ===== src/Stt/Attempts.antt =====
-- Which attempt decides the result (pkg/stt/retry.go).
use a2text.Base.{
  ap, sym, ◌∙◌, ℕ, zero, suc, ◌+◌, ◌-◌, ◌≤◌, ◌<◌, Bool, true, false, Option, none, some, ◌≡◌, refl,
  ◌⊎◌, inl, inr, String, arith,
}
use a2text.Base.Int.{ℤ}
use a2text.Stt.Reply.{Reply, ok, failed, Reply-cases}
use a2text.Stt.Retry.{
  next_backoff, RetryConfig, text, gave_up, exhausted, loop, transcribe, attempts_of,
}

-- A sum that computes on its first argument.
abbrev more : ℕ → ℕ → ℕ
more zero n = n
more (suc k) n = suc (more k n)

more-add : (k n : ℕ) → more k n ≡ k + n
more-add zero n = omega arith
more-add (suc k) n = omega (arith, more-add k n)

attempts_of_pos : (cfg : RetryConfig) → 1 ≤ attempts_of cfg
unfolding attempts_of
attempts_of_pos cfg = ground arith

module _ {ℓ} {E : Type ℓ} (inner : ℕ → Reply E) (cancelled : ℕ → Bool) (sleep : ℕ → ℤ → Option E)
    (is_retryable : E → Bool) where
  -- The attempt fails with an error that is to be retried, under a live context, and the sleep after it
  -- runs to its end.
  pub record IsTransient (n : ℕ) : Type ℓ where
    pub error : E
    pub fails : inner n ≡ failed error
    pub live : cancelled n ≡ false
    pub retryable : is_retryable error ≡ true
    pub slept : (d : ℤ) → sleep n d ≡ none

  -- One transient attempt that is not the last one goes on to the next.
  loop_transient :
      (max_attempts : ℕ) (max_delay : ℤ) (left attempt : ℕ) (delay : ℤ) (last : Option E)
      → attempt < max_attempts
      → (t : IsTransient attempt)
      → let r = loop inner cancelled sleep is_retryable max_attempts max_delay in
        let later = r left (suc attempt) (next_backoff delay max_delay) (some t.error) in
        ((r (suc left) attempt delay last).result ≡ later.result)
        × ((r (suc left) attempt delay last).calls ≡ suc later.calls)
  unfolding loop
  loop_transient max_attempts max_delay left attempt delay last h t = ground (arith, t.slept delay)

  -- Attempts that are all transient are passed over, one call each.
  loop_skip :
      (max_attempts : ℕ) (max_delay : ℤ) (gap left attempt target : ℕ) (delay : ℤ) (last : Option E)
      → target ≡ attempt + gap
      → target ≤ max_attempts
      → ((n : ℕ) → attempt ≤ n → n < target → IsTransient n)
      → let r = loop inner cancelled sleep is_retryable max_attempts max_delay in
        (d : ℤ) × (l : Option E) × ((r (more gap (suc left)) attempt delay last).result
          ≡ (r (suc left) target d l).result)
        × ((r (more gap (suc left)) attempt delay last).calls
            ≡ gap + (r (suc left) target d l).calls)
  loop_skip max_attempts max_delay zero left attempt target delay last t b h =
      let t' : target ≡ attempt = omega arith in (delay, last, rw t' refl, rw t' (omega arith))
  loop_skip max_attempts max_delay (suc gap) left attempt target delay last t b h =
      let here = h attempt (omega arith) (omega arith) in
      let (same, one) =
        loop_transient max_attempts max_delay (more gap (suc left)) attempt delay last (omega arith)
          here in
      let (d, l, result, calls) =
        loop_skip max_attempts max_delay gap left (suc attempt) target
          (next_backoff delay max_delay) (some here.error) (omega arith) b
          (λ n lo hi. h n (omega arith) hi) in
      (d, l, same ∙ result, one ∙ ap suc calls ∙ omega arith)

  -- What the loop does with attempt `k`, once all attempts before it were transient.
  loop_at :
      (cfg : RetryConfig) (k : ℕ)
      → 1 ≤ k
      → k ≤ attempts_of cfg
      → ((n : ℕ) → 1 ≤ n → n < k → IsTransient n)
      → (d : ℤ) × (l : Option E) × (let at_k =
            loop inner cancelled sleep is_retryable
              (attempts_of cfg)
              cfg.max_delay
              (suc (attempts_of cfg - k))
              k
              d
              l in
          ((transcribe inner cancelled sleep is_retryable cfg).result ≡ at_k.result)
          × ((transcribe inner cancelled sleep is_retryable cfg).calls ≡ k - 1 + at_k.calls))
  unfolding transcribe
  loop_at cfg k lo hi h =
      let top = attempts_of cfg in
      let (d, l, result, calls) =
        loop_skip top cfg.max_delay (k - 1) (top - k) 1 k cfg.initial_delay none (omega arith) hi
          h in
      let all : more (k - 1) (suc (top - k)) ≡ top =
        more-add (k - 1) (suc (top - k)) ∙ omega arith in
      let from = λ (n : ℕ).
        loop inner cancelled sleep is_retryable top cfg.max_delay n 1 cfg.initial_delay none in
      (
        d,
        l,
        (ap (λ n. (from n).result) (sym all) ∙ result, ap (λ n. (from n).calls) (sym all) ∙ calls),
      )

  -- If attempt `k` is the first that is not transient and it succeeds, `Transcribe` returns its text
  -- after exactly `k` calls of the backend.
  pub transcribe_success :
      (cfg : RetryConfig) (k : ℕ) {t : String}
      → 1 ≤ k
      → k ≤ attempts_of cfg
      → ((n : ℕ) → 1 ≤ n → n < k → IsTransient n)
      → inner k ≡ ok t
      → ((transcribe inner cancelled sleep is_retryable cfg).result ≡ text t)
        × ((transcribe inner cancelled sleep is_retryable cfg).calls ≡ k)
  unfolding loop
  transcribe_success cfg k lo hi h e =
      let (d, l, (result, calls)) = loop_at cfg k lo hi h in ground arith

  -- If attempt `k` is the first that is not transient, because the context was cancelled, or, before the
  -- last attempt, because its error is not to be retried, `Transcribe` gives up with that error after
  -- exactly `k` calls of the backend.
  pub transcribe_gives_up :
      (cfg : RetryConfig) (k : ℕ) {e : E}
      → 1 ≤ k
      → k ≤ attempts_of cfg
      → ((n : ℕ) → 1 ≤ n → n < k → IsTransient n)
      → inner k ≡ failed e
      → (cancelled k ≡ true) ⊎ ((k < attempts_of cfg) × (is_retryable e ≡ false))
      → ((transcribe inner cancelled sleep is_retryable cfg).result ≡ gave_up e)
        × ((transcribe inner cancelled sleep is_retryable cfg).calls ≡ k)
  unfolding loop
  transcribe_gives_up cfg k lo hi h e (inl dead) =
      let (d, l, (result, calls)) = loop_at cfg k lo hi h in ground arith
  transcribe_gives_up cfg k lo hi h e (inr (before, final)) =
      let (d, l, (result, calls)) = loop_at cfg k lo hi h in ground arith

  -- If all attempts before the last are transient and the last fails under a live context, `Transcribe`
  -- reports the last error as exhausted after exactly the maximum of calls, whatever the classifier says
  -- of that error.
  pub transcribe_exhausted :
      (cfg : RetryConfig) {e : E}
      → ((n : ℕ) → 1 ≤ n → n < attempts_of cfg → IsTransient n)
      → inner (attempts_of cfg) ≡ failed e
      → cancelled (attempts_of cfg) ≡ false
      → let r = transcribe inner cancelled sleep is_retryable cfg in
        (r.result ≡ exhausted (attempts_of cfg) (some e)) × (r.calls ≡ attempts_of cfg)
  unfolding loop
  transcribe_exhausted cfg h e c =
      let (d, l, (result, calls)) =
        loop_at cfg (attempts_of cfg) (attempts_of_pos cfg) (omega arith) h in
      ground (arith, attempts_of_pos cfg)

  loop_calls :
      (max_attempts : ℕ) (max_delay : ℤ) (left attempt : ℕ) (delay : ℤ) (last : Option E)
      → let r =
          loop inner cancelled sleep is_retryable max_attempts max_delay left attempt delay last in
        (r.calls ≤ left) × (0 < left → 0 < r.calls)
  unfolding loop
  loop_calls max_attempts max_delay zero attempt delay last = (omega arith, λ h. h)
  loop_calls max_attempts max_delay (suc left) attempt delay last =
      elim (Reply-cases (inner attempt)) [
        | inl (t, answered) ↦ ground arith
        | inr (e, broke) ↦
            let rest =
              (loop_calls max_attempts max_delay left (suc attempt) (next_backoff delay max_delay)
                (some e)).0 in
            ground arith
      ]

  -- Whatever the backend, the context, the sleep and the classifier do, `Transcribe` calls the backend at
  -- least once and at most as often as the configuration says.
  pub transcribe_calls :
      (cfg : RetryConfig)
      → let r = transcribe inner cancelled sleep is_retryable cfg in
        (1 ≤ r.calls) × (r.calls ≤ attempts_of cfg)
  unfolding transcribe
  transcribe_calls cfg =
      let (above, below) =
        loop_calls (attempts_of cfg) cfg.max_delay (attempts_of cfg) 1 cfg.initial_delay none in
      (below (attempts_of_pos cfg), above)
