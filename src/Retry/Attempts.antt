-- ===== src/Retry/Attempts.antt =====
-- src/retry.rs: which attempt gives the result, and how long the retries sleep.
use codasaurus.Retry.{RetryConfig, delay, Attempt, done, broke, retry_from, retry_async}
use codasaurus.Prelude.{
  ℕ, zero, suc, ◌+◌, ◌-◌, ◌*◌, ◌/◌, ◌%◌, ◌^◌, ◌≤◌, ◌<◌, min, Bool, true, Bool-cases, length, All,
  ◌≡◌, refl, ap, ◌∙◌, ◌↔◌, ◌⊎◌, inl, inr, arith,
}

jitter_le : (q r m : ℕ) → r < 3 → min (q * (r + 1)) m / 3 ≤ q
jitter_le q zero m h = omega arith
jitter_le q (suc zero) m h = omega arith
jitter_le q (suc (suc zero)) m h = omega arith
jitter_le q (suc (suc (suc r))) m h = absurd (omega arith)

-- Every delay is at least the base times the power of two, and at most a quarter more, with thirty
-- seconds as the longest.
pub delay_bounds :
    (self : RetryConfig) (attempt : ℕ)
    → let ms = self.base_delay_ms * 2 ^ attempt in
      (min ms 30_000 ≤ delay self attempt) × (delay self attempt ≤ min (ms + ms / 4) 30_000)
unfolding delay
delay_bounds self attempt =
    let j =
      jitter_le (self.base_delay_ms * 2 ^ attempt / 4) (attempt % 3) (2 ^ 64 - 1) (omega arith) in
    (omega (arith, j), omega (arith, j))

module _ {ℓ κ} {T : Type ℓ} {E : Type κ} (config : RetryConfig) (is_retryable : E → Bool)
    (f : ℕ → Attempt T E) where
  abbrev pub Retryable : Attempt T E → Type (ℓ ⊔ κ)
  Retryable a = (e : E) × (a ≡ broke e) × (is_retryable e ≡ true)

  -- Within so many retries from an attempt on, an attempt gives the value, and those before it
  -- fail with errors that are retried.
  abbrev pub Reaches : ℕ → ℕ → T → Type (ℓ ⊔ κ)
  Reaches attempt left v =
      (n : ℕ) × (n ≤ left)
      × (f (attempt + n) ≡ done v)
      × ((i : ℕ) → i < n → Retryable (f (attempt + i)))

  attempt_cases : (a : Attempt T E) → ((v : T) × (a ≡ done v)) ⊎ ((e : E) × (a ≡ broke e))
  attempt_cases (done v) = inl (v, refl)
  attempt_cases (broke e) = inr (e, refl)

  at : (i j : ℕ) → i ≡ j → f i ≡ f j
  at i j e = ap f e

  later :
      (attempt left : ℕ) (v : T)
      → Retryable (f attempt)
      → Reaches (attempt + 1) left v
      → Reaches attempt (suc left) v
  later attempt left v r (n, few, there, before) =
      (suc n, omega arith, at (attempt + suc n) (attempt + 1 + n) (omega arith) ∙ there, tries)
    where
      tries : (i : ℕ) → i < suc n → Retryable (f (attempt + i))
      tries zero h = rw (at (attempt + 0) attempt (omega arith)) r
      tries (suc i) h =
          rw (at (attempt + suc i) (attempt + 1 + i) (omega arith)) (before i (omega arith))

  sooner :
      (attempt left n : ℕ) (v : T)
      → suc n ≤ suc left
      → f (attempt + suc n) ≡ done v
      → ((i : ℕ) → i < suc n → Retryable (f (attempt + i)))
      → Reaches (attempt + 1) left v
  sooner attempt left n v few there before = (
    n,
    omega arith,
    at (attempt + 1 + n) (attempt + suc n) (omega arith) ∙ there,
    λ i h. rw (at (attempt + 1 + i) (attempt + suc i) (omega arith)) (before (suc i) (omega arith)),
  )

  retry_from-Reaches :
      (attempt left : ℕ) (v : T)
      → (retry_from T E config is_retryable f attempt left).result ≡ done v
      → Reaches attempt left v
  unfolding retry_from
  retry_from-Reaches attempt zero v e =
      (0, omega arith, at (attempt + 0) attempt (omega arith) ∙ e, λ i h. absurd (omega (arith, h)))
  retry_from-Reaches attempt (suc left) v e = elim (attempt_cases (f attempt)) [
    | inl (w, d) ↦ (
      0,
      omega arith,
      at (attempt + 0) attempt (omega arith) ∙ d ∙ rw (retry_from, d) at e,
      λ i h. absurd (omega (arith, h)),
    )
    | inr (x, d) ↦ elim (Bool-cases (is_retryable x)) [
      | inl r ↦
          later attempt left v (x, d, r)
            (retry_from-Reaches (attempt + 1) left v (rw (retry_from, d, r) at e))
      | inr r ↦ absurd (cc (rw (retry_from, d, r) at e))
    ]
  ]

  Reaches→done :
      (attempt left : ℕ) (v : T)
      → Reaches attempt left v
      → (retry_from T E config is_retryable f attempt left).result ≡ done v
  unfolding retry_from
  Reaches→done attempt zero v (n, few, there, before) =
      at attempt (attempt + n) (omega arith) ∙ there
  Reaches→done attempt (suc left) v (zero, few, there, before) =
      let d = at attempt (attempt + 0) (omega arith) ∙ there in rw (retry_from, d)
  Reaches→done attempt (suc left) v (suc n, few, there, before) =
      let (x, d, r) = before 0 (omega arith) in
      let here = at attempt (attempt + 0) (omega arith) ∙ d in
      let rest = Reaches→done (attempt + 1) left v (sooner attempt left n v few there before) in
      rw (retry_from, here, r) rest

  slept_bounds :
      (attempt left : ℕ)
      → let o = retry_from T E config is_retryable f attempt left in
        (length o.slept ≤ left) × All (λ ms. ms ≤ 30_000) o.slept
  unfolding retry_from
  slept_bounds attempt zero = (omega arith, tt)
  slept_bounds attempt (suc left) = elim (attempt_cases (f attempt)) [
    | inl (w, d) ↦ rw (retry_from, d) (omega arith, tt)
    | inr (x, d) ↦ elim (Bool-cases (is_retryable x)) [
      | inl r ↦
          let (few, short) = slept_bounds (attempt + 1) left in
          let cap = (delay_bounds config attempt).1 in
          rw (retry_from, d, r) (omega (arith, few), (omega (arith, cap), short))
      | inr r ↦ rw (retry_from, d, r) (omega arith, tt)
    ]
  ]

  -- A retried operation gives a value exactly when one of its attempts, of which there is one more
  -- than retries, gives it and all before failed with errors that are retried; and it never sleeps
  -- more often than there are retries, nor longer than thirty seconds at a time.
  pub retry_async-done :
      (v : T)
      → let o = retry_async T E config is_retryable f in
        ((o.result ≡ done v) ↔ Reaches 0 config.max_retries v)
        × (length o.slept ≤ config.max_retries)
        × All (λ ms. ms ≤ 30_000) o.slept
  unfolding retry_async
  retry_async-done v =
      let (few, short) = slept_bounds 0 config.max_retries in
      ((retry_from-Reaches 0 config.max_retries v, Reaches→done 0 config.max_retries v), few, short)
