-- ===== src/AgentMode.antt =====
-- src/bot/agent_mode.rs: pull requests that a coding agent wrote.
use codasaurus.Quality.{SignalBudget}
use codasaurus.Prelude.{
  ℕ, ◌+◌, ◌-◌, ◌^◌, min, String, Text, codes, str_eq, ends_with, contains, to_ascii_lowercase, List,
  [], ◌∷◌, ◌++◌, Bool, false, not, ◌&&◌, ◌||◌, if◌then◌else◌, is_nil, any,
}

pub record AgentSignal : Type 0 where
  pub is_agent : Bool
  pub reasons : List String

abbrev pub markers : List (String × String)
markers =
    ("co-authored-by: copilot", "AI co-author trailer")
    ∷ ("co-authored-by: claude", "AI co-author trailer")
    ∷ ("co-authored-by: chatgpt", "AI co-author trailer")
    ∷ ("co-authored-by: cursor", "AI co-author trailer")
    ∷ ("generated by cursor", "agent generation marker")
    ∷ ("generated with claude", "agent generation marker")
    ∷ ("devin", "coding-agent marker")
    ∷ ("@cursor", "coding-agent mention")
    ∷ ("aider", "coding-agent marker")
    ∷ ("continue.dev", "coding-agent marker")
    ∷ []

abbrev pub joined_lines : List Text → Text
joined_lines [] = []
joined_lines (t ∷ []) = t
joined_lines (t ∷ u ∷ us) = t ++ (10 ∷ joined_lines (u ∷ us))

-- The loop over the markers, which pushes each reason once.
unfoldable pub reasons_in : Text → List (String × String) → List String → List String
reasons_in blob [] reasons = reasons
reasons_in blob ((needle, reason) ∷ ms) reasons = reasons_in blob ms (
    if contains (codes needle) blob && not (any (λ r. str_eq r reason) reasons)
    then reasons ++ reason ∷ []
    else reasons)

abbrev pub is_dependency_bot : Text → Bool
is_dependency_bot author_l =
    contains (codes "[bot]") author_l
    || ends_with (codes "-bot") author_l
    || contains (codes "dependabot") author_l
    || contains (codes "renovate") author_l

unfoldable pub detect_agent_pr : Text → Text → List Text → Text → AgentSignal
unfolding reasons_in
detect_agent_pr pr_title pr_body commit_messages author =
    let blob =
      to_ascii_lowercase
        (pr_title ++ (10 ∷ pr_body ++ (10 ∷ author ++ (10 ∷ joined_lines commit_messages)))) in
    let reasons = reasons_in blob markers [] in
    if is_dependency_bot (to_ascii_lowercase author)
    then record { is_agent = false; reasons = [] }
    else record { is_agent = not (is_nil reasons); reasons = reasons }

unfoldable pub agent_signal_budget : SignalBudget → SignalBudget
agent_signal_budget base = record {
  max_blocking = min (base.max_blocking + 5) (2 ^ 64 - 1);
  max_warning = min base.max_warning 5;
  max_info = 1;
}

unfoldable pub agent_llm_issue_cap : Bool → ℕ
agent_llm_issue_cap is_agent = if is_agent then 4 else 12
