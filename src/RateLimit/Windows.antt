-- ===== src/RateLimit/Windows.antt =====
-- src/api/rate_limit.rs: how many requests of a key pass in a window, and when to come back.
use codasaurus.RateLimit.{Window, RateLimiter, is_live, live, or_new, restarted, check, client_ip}
use codasaurus.Prelude.{
  ℕ, ◌+◌, ◌-◌, ◌≤◌, ◌<◌, min, Text, text_eq, text_eq_iff, text_eq_refl, is_empty_text, List, [],
  ◌∷◌, Option, none, some, Bool, true, false, ◌&&◌, ltb, if◌then◌else◌, Bool-cases, count_if, All,
  ◌≡◌, refl, ◌∙◌, ◌↔◌, inl, inr, arith,
}

-- The requests of a key that count against its limit now.
abbrev pub used_of : Option Window → ℕ
used_of none = 0
used_of (some w) = w.count

unfoldable pub used : RateLimiter → ℕ → Text → ℕ
used self now key = used_of (live self.window now (self.hits key))

-- A request passes exactly when its key has used less than the limit in the window that is open.
pub check_iff :
    (self : RateLimiter) (now : ℕ) (key : Text)
    → ((check self now key).1 ≡ none) ↔ (used self now key < self.limit)
unfolding check used
check_iff self now key = ground (arith, text_eq_refl key)

-- With a window longer than zero, after a check the key has used one request more if it had used
-- less than the limit and none more if it had not, and every other key has used what it had.
pub used-check :
    (self : RateLimiter) (now : ℕ) (key k : Text)
    → 0 < self.window
    → used (check self now key).0 now k
      ≡ used self now k
        + (if text_eq key k then (if ltb (used self now key) self.limit then 1 else 0) else 0)
unfolding check used
used-check self now key k h = ground (arith, text_eq_refl key, text_eq_iff key k)

check-limit :
    (self : RateLimiter) (now : ℕ) (key : Text) → (check self now key).0.limit ≡ self.limit
unfolding check
check-limit self now key = ground arith

check-window :
    (self : RateLimiter) (now : ℕ) (key : Text) → (check self now key).0.window ≡ self.window
unfolding check
check-window self now key = ground arith

-- The window of a key did not open in the future, as no window does under a monotone clock.
abbrev pub OpenedBy : ℕ → Option Window → Type 0
OpenedBy now none = Unit
OpenedBy now (some w) = w.started ≤ now

-- A refused key is in a window that ends when the announced time is over.
refused :
    (self : RateLimiter) (now : ℕ) (key : Text) {d : ℕ}
    → OpenedBy now (self.hits key)
    → (check self now key).1 ≡ some d
    → (w : Window) × ((check self now key).0.hits key ≡ some w)
      × (self.window ≤ (now + d) - w.started)
      × (w.started ≤ now)
unfolding check
refused self now key o e =
    let entry = restarted self.window now (or_new now (live self.window now (self.hits key))) in
    (
      entry,
      ground (arith, text_eq_refl key),
      ground (arith, text_eq_refl key),
      opened (self.hits key) o,
    )
  where
    opened :
        (o : Option Window)
        → OpenedBy now o
        → (restarted self.window now (or_new now (live self.window now o))).started ≤ now
    opened none h = ground arith
    opened (some w) h = ground arith

over :
    (window later : ℕ) (w : Window)
    → window ≤ later - w.started
    → used_of (live window later (some w)) ≡ 0
over window later w h = ground arith

-- With a limit above zero and a clock that does not run backwards, a key that is refused passes
-- again, if no request came since, once the announced time is over.
pub check-retry_after :
    (self : RateLimiter) (now : ℕ) (key : Text) {d : ℕ} (later : ℕ)
    → 0 < self.limit
    → OpenedBy now (self.hits key)
    → (check self now key).1 ≡ some d
    → now + d ≤ later
    → (check (check self now key).0 later key).1 ≡ none
unfolding used
check-retry_after self now key later pos o e h =
    let (w, there, ends, opened) = refused self now key o e in
    let window = check-window self now key in
    (check_iff (check self now key).0 later key).1 (
      rw (there, check-limit self now key, window)
        (rw (over self.window later w (omega arith)) pos))

hits-check :
    (self : RateLimiter) (now : ℕ) (key k : Text) (w : Window)
    → self.hits k ≡ some w
    → is_live self.window now w ≡ true
    → (check self now key).0.hits k
      ≡ some (record w {
        count = w.count + (if text_eq key k && ltb w.count self.limit then 1 else 0);
      })
unfolding check
hits-check self now key k w e l = ground (arith, text_eq_refl key, text_eq_iff key k)

abbrev pub is_passed : Option ℕ → Bool
is_passed none = true
is_passed (some retry_after) = false

check-passed :
    (self : RateLimiter) (now : ℕ) (key : Text)
    → is_passed (check self now key).1 ≡ ltb (used self now key) self.limit
unfolding check used
check-passed self now key = ground (arith, text_eq_refl key)

-- How many requests of `k` the limiter lets pass, by the verdict of `check`, of a sequence of requests
-- with their times and keys.
unfoldable pub passed : RateLimiter → Text → List (ℕ × Text) → ℕ
passed self k [] = 0
passed self k ((now, key) ∷ reqs) =
    (if text_eq key k && is_passed (check self now key).1 then 1 else 0)
    + passed (check self now key).0 k reqs

used-open :
    (self : RateLimiter) (now : ℕ) (key k : Text) (w : Window)
    → self.hits k ≡ some w
    → is_live self.window now w ≡ true
    → text_eq key k ≡ true
    → used self now key ≡ w.count
unfolding used
used-open self now key k w e l same = rw ((text_eq_iff key k).0 same, e, l)

module _ (limit window started : ℕ) (k : Text) where
  step_count : (self : RateLimiter) (now : ℕ) (key : Text) (count : ℕ) → ℕ
  step_count self now key count = count + (if text_eq key k && ltb count limit then 1 else 0)

  passed-open :
      (reqs : List (ℕ × Text)) (self : RateLimiter) (count : ℕ)
      → self.limit ≡ limit
      → self.window ≡ window
      → self.hits k ≡ some (record { count = count; started = started })
      → All (λ r. ltb (r.0 - started) window ≡ true) reqs
      → passed self k reqs ≡ min (limit - count) (count_if (λ r. text_eq r.1 k) reqs)
  unfolding passed step_count
  passed-open [] self count l v e h = omega arith
  passed-open ((now, key) ∷ reqs) self count l v e h =
      let w : Window = record { count = count; started = started } in
      let alive : is_live self.window now w ≡ true = rw v h.0 in
      let rest =
        passed-open reqs (check self now key).0 (step_count self now key count)
          (check-limit self now key ∙ l) (check-window self now key ∙ v)
          (rw (← l) (hits-check self now key k w e alive)) h.1 in
      elim (Bool-cases (text_eq key k)) [
        | inl same ↦
            rw (check-passed self now key)
              (ground (arith, rest, used-open self now key k w e alive same))
        | inr other ↦ rw (check-passed self now key) (ground (arith, rest))
      ]

-- While a window of a key is open, the limiter lets exactly as many requests of that key pass as the
-- window has left of the limit, or all if they are fewer, and refuses the others, whatever requests of
-- other keys come between.
pub passed-window :
    (self : RateLimiter) (k : Text) (w : Window) (reqs : List (ℕ × Text))
    → self.hits k ≡ some w
    → All (λ r. is_live self.window r.0 w ≡ true) reqs
    → passed self k reqs ≡ min (self.limit - w.count) (count_if (λ r. text_eq r.1 k) reqs)
passed-window self k w reqs e h =
    passed-open self.limit self.window w.started k reqs self w.count refl refl e h

-- The key of an unauthenticated request is never empty.
pub client_ip-nonempty : (xff rip : Option Text) → is_empty_text (client_ip xff rip) ≡ false
unfolding client_ip
client_ip-nonempty none none = refl
client_ip-nonempty none (some r) = ground arith
client_ip-nonempty (some x) none = ground arith
client_ip-nonempty (some x) (some r) = ground arith
