-- ===== src/Examples/Stt.antt =====
-- The wrappers of transcribers (pkg/stt, internal/infra/factory/silence_gate.go) on concrete backends.
use a2text.Base.{
  ℕ, zero, suc, ◌≤◌, ◌<◌, Bool, true, false, Option, none, some, String, ◌≡◌, refl, ltb, ◌==◌,
  arith,
}
use a2text.Base.Int.{ℤ, pos}
use a2text.Stt.Reply.{Reply, ok, failed}
use a2text.Stt.Retry.{RetryConfig, text, exhausted, transcribe, attempts_of}
use a2text.Stt.Attempts.{IsTransient, transcribe_success, transcribe_exhausted}
use a2text.Stt.SilenceGate.{Transcriber}

-- The first attempt runs into a rate limit.
abbrev limited_once : ℕ → Reply String
limited_once zero = failed "429"
limited_once (suc zero) = failed "429"
limited_once (suc (suc n)) = ok "hello"

abbrev never : ℕ → Bool
never n = false

abbrev sleeps : ℕ → ℤ → Option String
sleeps n d = none

abbrev always : String → Bool
always e = true

abbrev config : RetryConfig
config = record { initial_delay = pos 500; max_delay = pos 4000; max_attempts = pos 2 }

limited-IsTransient : (n : ℕ) → 1 ≤ n → n < 2 → IsTransient limited_once never sleeps always n
limited-IsTransient zero a b = absurd (omega arith)
limited-IsTransient (suc zero) a b = record {
  error = "429";
  fails = refl;
  live = refl;
  retryable = refl;
  slept = λ d. refl;
}
limited-IsTransient (suc (suc n)) a b = absurd (omega arith)

transcribe_success_example :
    ((transcribe limited_once never sleeps always config).result ≡ text "hello")
    × ((transcribe limited_once never sleeps always config).calls ≡ 2)
unfolding attempts_of
transcribe_success_example =
    transcribe_success limited_once never sleeps always config 2 (omega arith) (omega arith)
      limited-IsTransient refl

-- The first attempt fails for want of a key, which no retry mends.
abbrev refused : ℕ → Reply String
refused n = failed "401"

abbrev not_401 : String → Bool
not_401 e = false

refused-IsTransient : (n : ℕ) → 1 ≤ n → n < 2 → IsTransient refused never sleeps always n
refused-IsTransient n a b = record {
  error = "401";
  fails = refl;
  live = refl;
  retryable = refl;
  slept = λ d. refl;
}

transcribe_exhausted_example :
    ((transcribe refused never sleeps always config).result ≡ exhausted 2 (some "401"))
    × ((transcribe refused never sleeps always config).calls ≡ 2)
unfolding attempts_of
transcribe_exhausted_example =
    transcribe_exhausted refused never sleeps always config refused-IsTransient refl refl

abbrev dead : Reply String
dead = failed "dead"

abbrev hello : Reply String
hello = ok "hello"

-- Loudness in decibels below full scale, as a number; the file is measured at 60, the threshold is 50.
abbrev quieter : ℕ → ℕ → Bool
quieter a b = ltb b a

abbrev is_off : ℕ → Bool
is_off n = n == 0

abbrev measured : String → Option ℕ
measured path = some 60

abbrev whisper : Transcriber String ℕ
whisper = record { transcribe = λ path lang. ok "thanks for watching"; stream = none }
