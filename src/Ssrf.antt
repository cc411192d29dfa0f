-- ===== src/Ssrf.antt =====
-- src/ssrf.rs: which hosts the server may send requests to. The parser of URLs, the parser of
-- addresses of the standard library and the resolver are arguments.
pub mod Ranges
pub mod Guard
use codasaurus.Prelude.{
  ℕ, ◌*◌, ◌/◌, ◌%◌, ◌^◌, Text, codes, text_eq, ends_with, to_ascii_lowercase, text_one_of, List, [],
  ◌∷◌, Option, none, some, is_some, Bool, false, ◌&&◌, ◌||◌, leb, ◌==◌, if◌then◌else◌, is_nil, any,
}

-- `Ipv4Addr`, by its octets.
pub record V4 : Type 0 where
  pub a : ℕ
  pub b : ℕ
  pub c : ℕ
  pub d : ℕ

-- An IPv6 address is its number of 128 bits.
pub data IpAddr : Type 0 where
  v4 : (ip : V4) → IpAddr
  v6 : (ip : ℕ) → IpAddr

abbrev pub is_loopback_v4 : V4 → Bool
is_loopback_v4 ip = ip.a == 127

abbrev pub is_private : V4 → Bool
is_private ip =
    ip.a == 10 || (ip.a == 172 && (leb 16 ip.b && leb ip.b 31)) || (ip.a == 192 && ip.b == 168)

abbrev pub is_link_local : V4 → Bool
is_link_local ip = ip.a == 169 && ip.b == 254

abbrev pub is_broadcast : V4 → Bool
is_broadcast ip = ip.a == 255 && (ip.b == 255 && (ip.c == 255 && ip.d == 255))

abbrev pub is_unspecified_v4 : V4 → Bool
is_unspecified_v4 ip = ip.a == 0 && (ip.b == 0 && (ip.c == 0 && ip.d == 0))

-- `b & 0xc0` leaves the two high bits of an octet: `b / 64 * 64`.
unfoldable pub is_blocked_v4 : V4 → Bool → Bool
is_blocked_v4 ip allow_loopback =
    if allow_loopback && is_loopback_v4 ip
    then false
    else is_loopback_v4 ip
      || is_private ip
      || is_link_local ip
      || is_broadcast ip
      || is_unspecified_v4 ip
      || ip.a == 0
      || (ip.a == 100 && ip.b / 64 * 64 == 64)
      || (ip.a == 169 && (ip.b == 254 && (ip.c == 169 && ip.d == 254)))
      || (ip.a == 198 && (ip.b == 18 || ip.b == 19))

abbrev pub octets : ℕ → V4
octets n = record { a = n / 2 ^ 24 % 256; b = n / 2 ^ 16 % 256; c = n / 2 ^ 8 % 256; d = n % 256 }

-- `::ffff:0:0/96`.
abbrev pub is_mapped : ℕ → Bool
is_mapped n = n / 2 ^ 32 == 65535

-- `fc00::/7` and `fe80::/10`.
abbrev pub is_unique_local : ℕ → Bool
is_unique_local n = n / 2 ^ 121 == 126

abbrev pub is_unicast_link_local : ℕ → Bool
is_unicast_link_local n = n / 2 ^ 118 == 1018

unfoldable pub is_blocked_v6 : ℕ → Bool → Bool
unfolding is_blocked_v4
is_blocked_v6 ip allow_loopback =
    if allow_loopback && ip == 1
    then false
    else ip == 1
      || ip == 0
      || is_unique_local ip
      || is_unicast_link_local ip
      || (is_mapped ip && is_blocked_v4 (octets ip) allow_loopback)

unfoldable pub is_blocked_ip : IpAddr → Bool → Bool
is_blocked_ip (v4 ip) allow_loopback = is_blocked_v4 ip allow_loopback
is_blocked_ip (v6 ip) allow_loopback = is_blocked_v6 ip allow_loopback

-- What the code reads of a URL; `host_str` has an IPv6 address in brackets.
pub record Url : Type 0 where
  pub scheme : Text
  pub host_str : Option Text
  pub port : Option ℕ

pub data Refusal : Type 0 where
  invalid_url unsupported_scheme no_host blocked_host blocked_address lookup_failed no_addresses :
      Refusal

pub data Checked : Type 0 where
  ok : Checked
  refused : (why : Refusal) → Checked

abbrev pub is_loopback_host : Text → Bool
is_loopback_host host_lower =
    text_eq host_lower (codes "localhost")
    || ends_with (codes ".localhost") host_lower
    || text_eq host_lower (codes "127.0.0.1")
    || text_eq host_lower (codes "::1")

abbrev pub is_internal_host : Text → Bool
is_internal_host host_lower =
    text_one_of host_lower ("metadata.google.internal" ∷ "metadata" ∷ "metadata.azure.com" ∷ [])
    || ends_with (codes ".internal") host_lower
    || ends_with (codes ".local") host_lower

abbrev pub address_check : Option IpAddr → Bool → Checked
address_check none allow_loopback = ok
address_check (some ip) allow_loopback =
    if is_blocked_ip ip allow_loopback then refused blocked_address else ok

-- `and_then` on results with no value.
abbrev pub and_check : Checked → Checked → Checked
and_check ok next = next
and_check (refused why) next = refused why

module _ (parse : Text → Option Url) (parse_ip : Text → Option IpAddr)
    (lookup_host : Text → ℕ → Option (List IpAddr)) where
  unfoldable pub check_llm_host : Text → Bool → Checked
  unfolding is_blocked_ip
  check_llm_host host allow_loopback =
      let host_lower = to_ascii_lowercase host in
      if is_loopback_host host_lower
      then (if allow_loopback then ok else refused blocked_host)
      else if is_internal_host host_lower
      then refused blocked_host
      else address_check (parse_ip host) allow_loopback

  unfoldable pub validate_llm_base_url : Text → Bool → Checked
  unfolding check_llm_host
  validate_llm_base_url raw allow_loopback = elim (parse raw) [
    | none ↦ refused invalid_url
    | some url ↦
        if text_one_of url.scheme ("http" ∷ "https" ∷ [])
        then elim url.host_str [
          | none ↦ refused no_host
          | some host ↦ check_llm_host host allow_loopback
        ]
        else refused unsupported_scheme
  ]

  unfoldable pub check_postgres_host : Text → Checked
  unfolding is_blocked_ip
  check_postgres_host host =
      let host_lower = to_ascii_lowercase host in
      if is_loopback_host host_lower
      then ok
      else if is_internal_host host_lower
      then refused blocked_host
      else address_check (parse_ip host) (is_loopback_host host_lower)

  unfoldable pub validate_postgres_url : Text → Checked
  unfolding check_postgres_host
  validate_postgres_url raw = elim (parse raw) [
    | none ↦ refused invalid_url
    | some url ↦
        if text_one_of url.scheme ("postgres" ∷ "postgresql" ∷ [])
        then elim url.host_str [ none ↦ refused no_host | some host ↦ check_postgres_host host ]
        else refused unsupported_scheme
  ]

  pub default_port : Text → ℕ
  default_port scheme =
      if text_one_of scheme ("postgres" ∷ "postgresql" ∷ [])
      then 5432
      else if text_eq scheme (codes "http")
      then 80
      else 443

  pub port_of : Url → ℕ
  port_of url = elim url.port [ none ↦ default_port url.scheme | some p ↦ p ]

  -- The loop over the addresses, with `saw_any`.
  unfoldable pub check_addresses : List IpAddr → Bool → Checked
  unfolding is_blocked_ip
  check_addresses addrs allow_loopback =
      if any (λ ip. is_blocked_ip ip allow_loopback) addrs
      then refused blocked_address
      else if is_nil addrs
      then refused no_addresses
      else ok

  unfoldable pub check_resolved : Url → Text → Bool → Checked
  unfolding check_addresses port_of default_port
  check_resolved url host allow_loopback =
      if is_some (parse_ip host) then ok else elim (lookup_host host (port_of url)) [
        | none ↦ refused lookup_failed
        | some addrs ↦ check_addresses addrs allow_loopback
      ]

  unfoldable pub resolve_and_check_host : Text → Bool → Checked
  unfolding check_resolved
  resolve_and_check_host raw allow_loopback = elim (parse raw) [
    | none ↦ refused invalid_url
    | some url ↦ elim url.host_str [
      | none ↦ refused no_host
      | some host ↦ check_resolved url host allow_loopback
    ]
  ]

  unfoldable pub validate_llm_base_url_resolved : Text → Bool → Checked
  unfolding validate_llm_base_url resolve_and_check_host
  validate_llm_base_url_resolved raw allow_loopback =
      and_check (validate_llm_base_url raw allow_loopback)
        (resolve_and_check_host raw allow_loopback)

  abbrev pub allows_loopback : Text → Bool
  allows_loopback raw = elim (parse raw) [
    | none ↦ false
    | some url ↦ elim url.host_str [
      | none ↦ false
      | some host ↦ is_loopback_host (to_ascii_lowercase host)
    ]
  ]

  unfoldable pub validate_postgres_url_resolved : Text → Checked
  unfolding validate_postgres_url resolve_and_check_host
  validate_postgres_url_resolved raw =
      and_check (validate_postgres_url raw) (resolve_and_check_host raw (allows_loopback raw))
