-- ===== src/Pipeline/Merged.antt =====
-- src/bot/review/findings.rs: severities before and after the merge.
use codasaurus.Finding.{Finding, is_blocking}
use codasaurus.Pipeline.Merge.{
  Group, is_of, goes_before, add_to_group, group_all, severity_weight, max_severity, group_severity,
  shown_severity, merged_finding, emit_group, emit_all, is_vulnerability,
  merge_vulnerability_findings,
}
use codasaurus.Prelude.{
  String, str_eq, List, [], ◌∷◌, Bool, false, ◌||◌, leb, Bool-cases, length, any, any-retain_split,
  any-append, ◌≡◌, refl, inl, inr, arith,
}

-- Some finding of some group blocks.
abbrev any_group : List Group → Bool
any_group [] = false
any_group (g ∷ gs) = any is_blocking g.members || any_group gs

any_group-add_to_group :
    (f : Finding) (gs : List Group)
    → any_group (add_to_group f gs) ≡ (is_blocking f || any_group gs)
unfolding add_to_group
any_group-add_to_group f [] = ground arith
any_group-add_to_group f (g ∷ gs) = elim (Bool-cases (is_of f g)) [
  | inl e ↦ rw (e, any-append) (ground arith)
  | inr e ↦ elim (Bool-cases (goes_before f g)) [
    | inl b ↦ rw (e, b) (ground arith)
    | inr b ↦ rw (e, b, any_group-add_to_group f gs) (ground arith)
  ]
]

any_group-group_all :
    (fs : List Finding) (gs : List Group)
    → any_group (group_all fs gs) ≡ (any is_blocking fs || any_group gs)
unfolding group_all
any_group-group_all [] gs = refl
any_group-group_all (f ∷ fs) gs =
    rw (any_group-group_all fs (add_to_group f gs), any_group-add_to_group f gs) (ground arith)

-- The greatest severity is "blocking" exactly when one of them is.
blocks-max_severity :
    (best : String) (fs : List Finding)
    → str_eq (max_severity best fs) "blocking" ≡ (str_eq best "blocking" || any is_blocking fs)
unfolding max_severity severity_weight
blocks-max_severity best [] = ground arith
blocks-max_severity best (f ∷ fs) =
    elim (Bool-cases (leb (severity_weight best) (severity_weight f.severity))) [
      | inl e ↦ rw (e, blocks-max_severity f.severity fs) (ground arith)
      | inr e ↦ rw (e, blocks-max_severity best fs) (ground arith)
    ]

shown_blocks : (s : String) → str_eq (shown_severity s) "blocking" ≡ str_eq s "blocking"
shown_blocks s = elim (Bool-cases (str_eq s "blocking")) [
  | inl e ↦ rw e
  | inr e ↦ elim (Bool-cases (str_eq s "warning")) [ inl w ↦ rw (e, w) | inr w ↦ rw (e, w) ]
]

group_blocks : (fs : List Finding) → str_eq (group_severity fs) "blocking" ≡ any is_blocking fs
unfolding group_severity
group_blocks [] = refl
group_blocks (f ∷ fs) = blocks-max_severity f.severity fs

emit_group-blocking : (g : Group) → any is_blocking (emit_group g) ≡ any is_blocking g.members
unfolding emit_group merged_finding
emit_group-blocking g = elim (Bool-cases (leb (length g.members) 1)) [
  | inl e ↦ rw e
  | inr e ↦ rw (e, shown_blocks (group_severity g.members), group_blocks g.members) (ground arith)
]

emit_all-blocking : (gs : List Group) → any is_blocking (emit_all gs) ≡ any_group gs
unfolding emit_all
emit_all-blocking [] = refl
emit_all-blocking (g ∷ gs) = rw (any-append, emit_group-blocking g, emit_all-blocking gs)

-- After the merge of the vulnerability findings some finding blocks exactly when one did before.
pub merge_vulnerability_findings-blocking :
    (fs : List Finding) → any is_blocking (merge_vulnerability_findings fs) ≡ any is_blocking fs
unfolding merge_vulnerability_findings
merge_vulnerability_findings-blocking fs =
    rw
      (
        any-append,
        emit_all-blocking,
        any_group-group_all,
        any-retain_split is_blocking is_vulnerability fs,
      )
      (ground arith)
