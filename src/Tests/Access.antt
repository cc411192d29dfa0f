-- ===== src/Tests/Access.antt =====
-- Roles and the rate limiter at concrete inputs.
use codasaurus.Rbac.{UserRow, Answer, ok, owner, require_role}
use codasaurus.Rbac.Access.{GetsIn, require_role-ok, view}
use codasaurus.RateLimit.{RateLimiter}
use codasaurus.RateLimit.Windows.{passed, passed-window}
use codasaurus.Prelude.{
  ℕ, min, Text, codes, text_eq, [], ◌∷◌, Option, none, some, true, if◌then◌else◌, count_if, ◌≡◌,
  refl, ◌↔◌,
}

abbrev ada : UserRow
ada = record { email = codes "ada@x.org"; role = "admin"; is_bootstrap = true }

abbrev users : Text → Answer (Option UserRow)
users e = ok (if text_eq e ada.email then some ada else none)

require_role-ok_example :
    (require_role (some (codes "ada@x.org")) users owner ≡ ok (view ada))
    ↔ GetsIn users owner (view ada) (some (codes "ada@x.org"))
require_role-ok_example = require_role-ok users owner (view ada) (some (codes "ada@x.org"))

abbrev me : Text
me = codes "me"

abbrev you : Text
you = codes "you"

abbrev full : RateLimiter
full = record {
  limit = 2;
  window = 60;
  hits = λ k. if text_eq k me then some (record { count = 2; started = 5 }) else none;
}

abbrev half : RateLimiter
half = record full {
  hits = λ k. if text_eq k me then some (record { count = 1; started = 5 }) else none;
}

passed-window_example :
    passed half me ((11, me) ∷ (12, you) ∷ (13, me) ∷ [])
    ≡ min 1 (count_if {A = ℕ × Text} (λ r. text_eq r.1 me) ((11, me) ∷ (12, you) ∷ (13, me) ∷ []))
passed-window_example =
    passed-window half me (record { count = 1; started = 5 }) ((11, me) ∷ (12, you) ∷ (13, me) ∷ [])
      refl (refl, (refl, (refl, tt)))
