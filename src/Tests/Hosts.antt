-- ===== src/Tests/Hosts.antt =====
-- Requests to other hosts at concrete inputs.
use codasaurus.Ssrf.{
  V4, IpAddr, v4, Url, ok, is_blocked_v4, validate_llm_base_url_resolved, is_blocked_ip,
}
use codasaurus.Ssrf.Ranges.{IsV4, number, in_net, blocked_nets, loopback_net, is_blocked_v4-nets}
use codasaurus.Ssrf.Guard.{IsSafe, validate_llm_base_url_resolved-IsSafe}
use codasaurus.Prelude.{
  ℕ, Text, codes, List, [], ◌∷◌, Option, none, some, true, false, not, ◌&&◌, ◌||◌, any, ◌≡◌, refl,
  arith,
}

abbrev metadata : V4
metadata = record { a = 169; b = 254; c = 169; d = 254 }

metadata-IsV4 : IsV4 metadata
metadata-IsV4 = record { a = omega arith; b = omega arith; c = omega arith; d = omega arith }

metadata_blocked : is_blocked_v4 metadata true ≡ true
unfolding is_blocked_v4
metadata_blocked = refl

is_blocked_v4-nets_example : is_blocked_v4 metadata true ≡ (
    any (in_net (number metadata)) blocked_nets
    || (not true && in_net (number metadata) loopback_net))
is_blocked_v4-nets_example = is_blocked_v4-nets metadata true metadata-IsV4

abbrev api : Url
api = record { scheme = codes "https"; host_str = some (codes "api.example.com"); port = none }

abbrev parse : Text → Option Url
parse raw = some api

abbrev no_literal : Text → Option IpAddr
no_literal host = none

abbrev lookup : Text → ℕ → Option (List IpAddr)
lookup host port = some (v4 (record { a = 93; b = 184; c = 216; d = 34 }) ∷ [])

accepted :
    validate_llm_base_url_resolved parse no_literal lookup (codes "https://api.example.com") false
    ≡ ok
unfolding validate_llm_base_url_resolved is_blocked_ip is_blocked_v4
accepted = refl

validate_llm_base_url_resolved-IsSafe_example :
    IsSafe parse no_literal lookup (codes "https://api.example.com")
validate_llm_base_url_resolved-IsSafe_example =
    validate_llm_base_url_resolved-IsSafe parse no_literal lookup (codes "https://api.example.com")
      accepted
