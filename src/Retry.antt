-- ===== src/Retry.antt =====
-- src/retry.rs: retries with exponential back-off. The operation is a function of the number of the
-- attempt; the delays that were slept are part of the outcome. Times are milliseconds.
pub mod Attempts
use codasaurus.Prelude.{
  ℕ, zero, suc, ◌+◌, ◌-◌, ◌*◌, ◌/◌, ◌%◌, ◌^◌, min, List, [], ◌∷◌, Bool, if◌then◌else◌,
}

pub record RetryConfig : Type 0 where
  pub max_retries : ℕ
  pub base_delay_ms : ℕ

unfoldable pub api_default : RetryConfig
api_default = record { max_retries = 3; base_delay_ms = 1000 }

unfoldable pub quick : RetryConfig
quick = record { max_retries = 2; base_delay_ms = 500 }

-- The base delay times the power of two fits in 64 bits for every configuration of the program.
unfoldable pub delay : RetryConfig → ℕ → ℕ
delay self attempt =
    let ms = self.base_delay_ms * 2 ^ attempt in
    let jitter = min (ms / 4 * (attempt % 3 + 1)) (2 ^ 64 - 1) / 3 in min (ms + jitter) 30_000

module _ {ℓ κ} (T : Type ℓ) (E : Type κ) where
  pub data Attempt : Type (ℓ ⊔ κ) where
    done : (value : T) → Attempt
    broke : (error : E) → Attempt

  pub record Outcome : Type (ℓ ⊔ κ) where
    pub result : Attempt
    pub slept : List ℕ

  abbrev pub after_sleep : ℕ → Outcome → Outcome
  after_sleep ms o = record o { slept = ms ∷ o.slept }

  module _ (config : RetryConfig) (is_retryable : E → Bool) (f : ℕ → Attempt) where
    -- The loop from an attempt on, with so many retries left.
    unfoldable pub retry_from : ℕ → ℕ → Outcome
    retry_from attempt zero = record { result = f attempt; slept = [] }
    retry_from attempt (suc left) =
        let again = after_sleep (delay config attempt) (retry_from (attempt + 1) left) in
        elim (f attempt) [
          | done value ↦ record { result = done value; slept = [] }
          | broke error ↦
              if is_retryable error then again else record { result = broke error; slept = [] }
        ]

    unfoldable pub retry_async : Outcome
    unfolding retry_from
    retry_async = retry_from 0 config.max_retries
