-- ===== src/Policy/Layers.antt =====
-- src/bot/policy.rs: how the layers of the configuration override one another in a policy pack.
use codasaurus.Policy.Pack.{
  PolicyPack, PolicyJson, RepoConfig, severity_tag, or_keep, and_then, lookup, apply_json,
  apply_policy, load,
}
use codasaurus.Prelude.{
  ℕ, String, Text, List, Option, none, some, Option-cases, ◌≡◌, refl, ◌⊎◌, inl, inr, arith,
}

abbrev pub IsSeverity : String → Type 0
IsSeverity s = (s ≡ "blocking") ⊎ (s ≡ "warning") ⊎ (s ≡ "info")

severity_tag-IsSeverity : (v : Text) {s : String} → severity_tag v ≡ some s → IsSeverity s
unfolding severity_tag
severity_tag-IsSeverity v {s} h = ground arith

or_keep-IsSeverity :
    (o : Option Text) {old : String}
    → IsSeverity old
    → IsSeverity (or_keep (and_then o severity_tag) old)
or_keep-IsSeverity none h = h
or_keep-IsSeverity (some v) {old} h = elim (Option-cases (severity_tag v)) [
  | inl e ↦ rw e h
  | inr (s, e) ↦ rw e (severity_tag-IsSeverity v e)
]

apply_policy-IsSeverity :
    (o : Option PolicyJson) (p : PolicyPack)
    → IsSeverity p.min_severity
    → IsSeverity (apply_policy o p).min_severity
unfolding apply_json
apply_policy-IsSeverity none p h = h
apply_policy-IsSeverity (some pj) p h = or_keep-IsSeverity pj.min_severity h

-- Whatever the settings table and the repository's configuration hold, the severity floor of the
-- pack is one of the three severities.
pub load-IsSeverity :
    (json_list : Text → Option (List Text)) (entries : Option (List (String × Text)))
    (repo : Option RepoConfig) (mb mw : ℕ)
    → IsSeverity (load json_list entries repo mb mw).min_severity
unfolding load
load-IsSeverity json_list none none mb mw = inr (inr refl)
load-IsSeverity json_list (some rows) none mb mw =
    or_keep-IsSeverity (lookup "default_severity" rows) (inr (inr refl))
load-IsSeverity json_list none (some c) mb mw = apply_policy-IsSeverity c.policy _ (inr (inr refl))
load-IsSeverity json_list (some rows) (some c) mb mw =
    apply_policy-IsSeverity c.policy _
      (or_keep-IsSeverity (lookup "default_severity" rows) (inr (inr refl)))
