-- ===== src/RateLimit.antt =====
-- src/api/rate_limit.rs: the fixed-window limiter. Instants and durations are nanoseconds; the
-- instants that `check` reads from the clock are arguments.
pub mod Windows
use codasaurus.Prelude.{
  ℕ, ◌+◌, ◌-◌, ◌*◌, ◌/◌, ◌^◌, max, Text, codes, text_eq, trim, split_by, is_empty_text, parse_usize,
  List, [], ◌∷◌, map, Option, none, some, Bool, ltb, leb, ◌==◌, if◌then◌else◌,
}

pub record Window : Type 0 where
  pub count : ℕ
  pub started : ℕ

-- The `HashMap` of hits, as a function of the key.
abbrev pub Hits : Type 0
Hits = Text → Option Window

pub record RateLimiter : Type 0 where
  pub limit : ℕ
  pub window : ℕ
  pub hits : Hits

unfoldable pub new : ℕ → ℕ → RateLimiter
new limit window = record { limit = limit; window = window; hits = λ key. none }

-- `now.duration_since(started) < window`; `duration_since` stops at zero.
abbrev pub is_live : ℕ → ℕ → Window → Bool
is_live window now w = ltb (now - w.started) window

abbrev pub live : ℕ → ℕ → Option Window → Option Window
live window now none = none
live window now (some w) = if is_live window now w then some w else none

-- `map.retain(…)`.
unfoldable pub expire : ℕ → ℕ → Hits → Hits
expire window now hits key = live window now (hits key)

unfoldable pub insert : Text → Window → Hits → Hits
insert key w hits k = if text_eq key k then some w else hits k

-- `entry(key).or_insert((0, now))`.
abbrev pub or_new : ℕ → Option Window → Window
or_new now none = record { count = 0; started = now }
or_new now (some w) = w

-- `if now.duration_since(entry.1) >= window { *entry = (0, now) }`.
abbrev pub restarted : ℕ → ℕ → Window → Window
restarted window now w =
    if leb window (now - w.started) then record { count = 0; started = now } else w

-- The limiter after the check, and the time to wait if the key is over its limit.
unfoldable pub check : RateLimiter → ℕ → Text → RateLimiter × Option ℕ
unfolding expire insert
check self now key =
    let map = expire self.window now self.hits in
    let entry = restarted self.window now (or_new now (map key)) in
    if leb self.limit entry.count
    then (record self { hits = insert key entry map }, some (self.window - (now - entry.started)))
    else (record self { hits = insert key (record entry { count = entry.count + 1 }) map }, none)

abbrev pub second : ℕ
second = 1_000_000_000

-- `env_u32`: the variable if it is set and is a `u32`.
unfoldable pub env_u32 : Option Text → ℕ → ℕ
env_u32 none d = d
env_u32 (some v) d = elim (parse_usize v) [ none ↦ d | some n ↦ if ltb n (2 ^ 32) then n else d ]

unfoldable pub api_limiter : Option Text → RateLimiter
unfolding new env_u32
api_limiter env = new (env_u32 env 100) (60 * second)

unfoldable pub webhook_limiter : Option Text → RateLimiter
unfolding new env_u32
webhook_limiter env = new (env_u32 env 300) (60 * second)

abbrev pub first_piece : List Text → Text
first_piece [] = []
first_piece (w ∷ ws) = w

abbrev pub is_comma : ℕ → Bool
is_comma c = c == b','

abbrev pub unless_blank : Text → Text → Text
unless_blank t other = if is_empty_text t then other else t

abbrev pub real_ip : Option Text → Text
real_ip none = codes "unknown"
real_ip (some rip) = unless_blank (trim rip) (codes "unknown")

-- The two headers, where they are there and readable.
unfoldable pub client_ip : Option Text → Option Text → Text
client_ip none x_real_ip = real_ip x_real_ip
client_ip (some xff) x_real_ip =
    unless_blank (trim (first_piece (split_by is_comma xff))) (real_ip x_real_ip)

-- `Retry-After`, in whole seconds and at least one.
unfoldable pub too_many : ℕ → ℕ
too_many retry_after = max (retry_after / second) 1

abbrev pub verdict : RateLimiter × Option ℕ → RateLimiter × Option ℕ
verdict (self, none) = (self, none)
verdict (self, some retry_after) = (self, some (too_many retry_after))

-- The middleware: the session token is the key, and the address without one.
unfoldable pub api_rate_limit :
    RateLimiter → ℕ → Option Text → Option Text → Option Text → RateLimiter × Option ℕ
unfolding check client_ip too_many
api_rate_limit self now token x_forwarded_for x_real_ip =
    let key : Text = elim token [ some t ↦ t | none ↦ client_ip x_forwarded_for x_real_ip ] in
    verdict (check self now key)

unfoldable pub check_webhook_rate_limit :
    RateLimiter → ℕ → Option Text → Option Text → RateLimiter × Option ℕ
unfolding check client_ip too_many
check_webhook_rate_limit self now x_forwarded_for x_real_ip =
    verdict (check self now (client_ip x_forwarded_for x_real_ip))
