-- ===== src/Ssrf/Guard.antt =====
-- src/ssrf.rs: what a URL that passes the checks can reach.
use codasaurus.Ssrf.{
  IpAddr, Url, Refusal, blocked_address, Checked, ok, refused, is_blocked_ip, is_loopback_host,
  is_internal_host, address_check, and_check, check_llm_host, validate_llm_base_url, port_of,
  check_addresses, check_resolved, resolve_and_check_host, validate_llm_base_url_resolved,
}
use codasaurus.Prelude.{
  ℕ, Text, to_ascii_lowercase, text_one_of, List, [], ◌∷◌, Option, none, some, Bool, true, false,
  if◌then◌else◌, Option-cases, is_nil, any, All, ◌≡◌, refl, inl, inr, arith,
}

module _ (parse : Text → Option Url) (parse_ip : Text → Option IpAddr)
    (lookup_host : Text → ℕ → Option (List IpAddr)) where
  -- The addresses that a connection to a host may go to: the one that it is, or those that it
  -- resolves to.
  abbrev pub targets : Option IpAddr → Option (List IpAddr) → List IpAddr
  targets (some ip) answer = ip ∷ []
  targets none none = []
  targets none (some addrs) = addrs

  -- A URL over HTTP, of a host that is no name of this machine or of an internal network, and whose
  -- addresses are there and all allowed.
  pub record IsSafe (raw : Text) : Type 0 where
    pub url : Url
    pub host : Text
    pub parsed : parse raw ≡ some url
    pub web : text_one_of url.scheme ("http" ∷ "https" ∷ []) ≡ true
    pub named : url.host_str ≡ some host
    pub foreign : is_loopback_host (to_ascii_lowercase host) ≡ false
    pub external : is_internal_host (to_ascii_lowercase host) ≡ false
    pub reached :
        is_nil (targets (parse_ip host) (lookup_host host (port_of parse parse_ip lookup_host url)))
        ≡ false
    pub allowed :
        All
          (λ ip. is_blocked_ip ip false ≡ false)
          (targets (parse_ip host) (lookup_host host (port_of parse parse_ip lookup_host url)))

  both_ok : (x y : Checked) → and_check x y ≡ ok → (x ≡ ok) × (y ≡ ok)
  both_ok ok y e = (refl, e)
  both_ok (refused why) y e = absurd (cc e)

  ok_then :
      (b : Bool) (x : Checked) (why : Refusal)
      → (if b then x else refused why) ≡ ok
      → (b ≡ true) × (x ≡ ok)
  ok_then true x why e = (refl, e)
  ok_then false x why e = absurd (cc e)

  ok_else :
      (b : Bool) (x : Checked) (why : Refusal)
      → (if b then refused why else x) ≡ ok
      → (b ≡ false) × (x ≡ ok)
  ok_else true x why e = absurd (cc e)
  ok_else false x why e = (refl, e)

  llm_host :
      (host : Text)
      → check_llm_host parse parse_ip lookup_host host false ≡ ok
      → (is_loopback_host (to_ascii_lowercase host) ≡ false)
        × (is_internal_host (to_ascii_lowercase host) ≡ false)
        × (address_check (parse_ip host) false ≡ ok)
  unfolding check_llm_host
  llm_host host e =
      let (foreign, rest) = ok_else (is_loopback_host (to_ascii_lowercase host)) _ _ e in
      let (external, checked) = ok_else (is_internal_host (to_ascii_lowercase host)) _ _ rest in
      (foreign, external, checked)

  all_allowed :
      (addrs : List IpAddr)
      → any (λ ip. is_blocked_ip ip false) addrs ≡ false
      → All (λ ip. is_blocked_ip ip false ≡ false) addrs
  all_allowed [] e = tt
  all_allowed (ip ∷ ips) e = let rest = all_allowed ips in (ground arith, rest (ground arith))

  resolved :
      (url : Url) (host : Text)
      → address_check (parse_ip host) false ≡ ok
      → check_resolved parse parse_ip lookup_host url host false ≡ ok
      → let reached =
          targets (parse_ip host) (lookup_host host (port_of parse parse_ip lookup_host url)) in
        (is_nil reached ≡ false) × All (λ ip. is_blocked_ip ip false ≡ false) reached
  unfolding check_resolved check_addresses
  resolved url host literal e = elim (Option-cases (parse_ip host)) [
    | inr (ip, h) ↦
        rw h (refl, ((ok_else (is_blocked_ip ip false) ok blocked_address (rw h at literal)).0, tt))
    | inl h ↦ elim (Option-cases (lookup_host host (port_of parse parse_ip lookup_host url))) [
      | inl n ↦ absurd (cc (rw (h, n) at e))
      | inr (addrs, n) ↦
          let (clean, rest) =
            ok_else (any (λ ip. is_blocked_ip ip false) addrs) _ _ (rw (h, n) at e) in
          let (some_there, _) = ok_else (is_nil addrs) _ _ rest in
          rw (h, n) (some_there, all_allowed addrs clean)
    ]
  ]

  -- A URL that passes the check with resolution, with loopback not allowed, is safe: it is over
  -- HTTP, its host is no name of this machine or of an internal network, and there are addresses
  -- that its host is or resolves to, none of which is blocked.
  pub validate_llm_base_url_resolved-IsSafe :
      (raw : Text)
      → validate_llm_base_url_resolved parse parse_ip lookup_host raw false ≡ ok
      → IsSafe raw
  unfolding validate_llm_base_url_resolved validate_llm_base_url resolve_and_check_host
  validate_llm_base_url_resolved-IsSafe raw e =
      let (first, second) =
        both_ok (validate_llm_base_url parse parse_ip lookup_host raw false) _ e in
      elim (Option-cases (parse raw)) [
        | inl n ↦ absurd (cc (rw (validate_llm_base_url, n) at first))
        | inr (url, p) ↦ elim (Option-cases url.host_str) [
          | inl n ↦ absurd (cc (rw (resolve_and_check_host, p, n) at second))
          | inr (host, h) ↦
              let (web, checked) =
                ok_then (text_one_of url.scheme ("http" ∷ "https" ∷ [])) _ _
                  (rw (validate_llm_base_url, p, h) at first) in
              let (foreign, external, literal) = llm_host host checked in
              let (reached, allowed) =
                resolved url host literal (rw (resolve_and_check_host, p, h) at second) in
              record {
                url = url;
                host = host;
                parsed = p;
                web = web;
                named = h;
                foreign = foreign;
                external = external;
                reached = reached;
                allowed = allowed;
              }
        ]
      ]
