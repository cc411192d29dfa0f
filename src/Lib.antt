-- ===== src/Lib.antt =====
-- Codasaurus, a review bot for pull requests, in Rust: the core that decides what a review says
-- and that it is said once.
--
-- A webhook (Webhook) starts commands (Commands), learns from reactions (Reactions) and enqueues a
-- commit of a pull request (Queue). A worker claims the job (Worker) and the commit (Claims), runs
-- the detectors, which ask registries for packages (Registry), and gets findings (Finding). The settings
-- make a policy pack (Policy) that a preset sharpens (Strictness) and the pack adds findings of its
-- own; the budget ranks and cuts them (Quality, AgentMode), the filter keeps those on changed lines
-- (Baseline), each is given a score (Confidence), and the comments, the verdict (Pipeline, Concern)
-- and the quality gate (Gates) are read off what is left. Reviewers come from the code owners
-- (Codeowners). What was learned from dismissals holds in scopes (Learning), for paths that patterns
-- name (Exclude). Requests to other hosts are checked (Ssrf) and retried (Retry). What a language
-- model says is checked before it is posted (Provenance), what a change reaches is read off the
-- graph of symbols (Graph), and the paths for related pull requests are picked by score (Related).
-- The dashboard is guarded by roles (Rbac) over its accounts and sessions (Accounts) and by fixed
-- windows of requests (RateLimit).
--
-- Files and the code they model, with paths from the root of the repository:
--   Finding     src/detectors/mod.rs: `Finding`, `Findings`, `fingerprint`
--   Confidence  src/confidence.rs
--   Quality     src/bot/quality.rs: `noise_rank`, `apply_signal_budget`
--   Strictness  src/bot/strictness.rs
--   Concern     src/bot/concern.rs
--   Policy      src/bot/policy.rs (Pack: the layers of settings, Forbidden: refused paths, Caps: the
--               caps on counts, Titles: metadata, with `is_conventional_title` of src/bot/title_fix.rs)
--   Gates       src/gates.rs
--   Rbac        src/api/rbac.rs
--   RateLimit   src/api/rate_limit.rs
--   Queue       src/bot/queue.rs, with the table of src/db/migrations.rs
--   Claims      src/state.rs: `try_claim_sha`, `force_claim_sha`, `release_sha_claim`, …
--               (Reviewed: a claim as its read and its write)
--   Worker      src/bot/worker.rs: `process_queued_review`, the loop of `start_review_worker`
--   Baseline    src/baseline.rs: the lines of a patch and `filter_new_code_findings`
--   AgentMode   src/bot/agent_mode.rs
--   Pipeline    src/bot/review (Merge: `merge_vulnerability_findings` of findings.rs, Comments: the loop
--               over the findings in pipeline.rs, Stages: the stages of pipeline.rs before it)
--   Ssrf        src/ssrf.rs
--   Retry       src/retry.rs: `RetryConfig`, `retry_async`
--   Codeowners  src/bot/codeowners.rs
--   Exclude     src/detectors/mod.rs: the patterns of `is_excluded`
--   Learning    src/learning/store.rs: `scope_chain`, `path_matches_pattern` (Store: the tables of
--               dismissals and rules, Filter: `filter_findings_async`, Promotion: src/learning/mine.rs
--               with `LearningConfig` of src/config.rs)
--   Commands    src/bot/commands.rs: `parse_bot_command` and its parts
--   Reactions   src/bot/reactions.rs, src/bot/threads.rs
--   Webhook     src/bot/mod.rs, src/bot/verify.rs: payloads and access rules (Handler: `handle_webhook`
--               and the deliveries of src/bot/maintenance.rs, Tasks: what a started task writes
--               into the learned store, reviews and most commands left out)
--   Accounts    src/db/users.rs, src/db/sessions.rs, src/db/invites.rs (Handlers:
--               src/api/auth.rs, src/api/users.rs and `setup_admin` of src/api/setup.rs; Traces:
--               sequences of requests)
--   Provenance  src/bot/provenance.rs: `reverify_llm_issues`
--   Registry    src/registry/mod.rs: `check_package_async` and its cache
--   Related     src/bot/related_prs.rs, src/llm/cost.rs: `select_paths_for_related`
--   Graph       src/graph/mod.rs: the graph of symbols and `blast_radius_capped`
--   Prelude     lists, text, tests on numbers and a stable sort, for all of these
--   Tests       the theorems at concrete inputs
--
-- Text is a list of code points, tags that the code compares with literals are strings, and sizes
-- and times are natural numbers: nothing here comes near the width of a machine word but the scores
-- and the counters, which stay below it. The rows of a table are a list, a statement is a function
-- on the table and the time of the transaction, and the locks that other transactions hold are
-- an argument of the claim of a job. A claim on a commit has two times, the clock of the process and
-- that of the database, and the row that its `SELECT` saw. Floats are an interface (`F64`) with the
-- comparisons that the gate uses. SHA-256, the HMAC, the JSON library, the parsers of URLs and
-- addresses, the resolver, the language model, the settings table and the package registries are
-- arguments of the definitions that use them, and in Rbac so are the session and the table of users, which Accounts supplies. A handler of Accounts runs
-- as one step: what two of them do at once is not modelled.
-- There is fuel in two places: the retries have one more than their number, which is how often the
-- loop of the source runs, and the search of the graph has one round for each node, which is enough.
-- The graph library is an interface (`DiGraph`) with the laws on its node numbers.
--
-- Not modelled: the detectors themselves (regular expressions and syntax trees), the calls of
-- GitHub and of language models, logging and metrics, the text of comments and prompts, and the
-- other routes of the dashboard.
pub mod Provenance
pub mod Prelude
pub mod Finding
pub mod Confidence
pub mod Quality
pub mod Strictness
pub mod Concern
pub mod Policy
pub mod Gates
pub mod Rbac
pub mod RateLimit
pub mod Queue
pub mod Claims
pub mod Worker
pub mod Baseline
pub mod AgentMode
pub mod Ssrf
pub mod Registry
pub mod Related
pub mod Retry
pub mod Codeowners
pub mod Exclude
pub mod Learning
pub mod Graph
pub mod Commands
pub mod Reactions
pub mod Webhook
pub mod Accounts
pub mod Pipeline
mod Tests
