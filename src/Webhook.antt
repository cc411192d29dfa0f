-- ===== src/Webhook.antt =====
-- src/bot/mod.rs and src/bot/verify.rs: what GitHub delivers, and who may give commands. A value of
-- JSON is a record of what the code reads in it; the JSON library, the HMAC, the environment and the
-- reload of the configuration are arguments.
pub mod Handler
pub mod Tasks
pub mod Replays
pub mod Accepting
pub mod Trusted
pub mod Untrusted
use codasaurus.Commands.{BotCommand, or_else}
use codasaurus.Prelude.{
  ℕ, ◌+◌, Text, codes, text_eq, strip_prefix, ends_with, trim, to_ascii_lowercase, text_one_of,
  is_empty_text, List, [], ◌∷◌, ◌++◌, Option, none, some, Bool, false, not, ◌&&◌, ◌||◌,
  if◌then◌else◌,
}

pub record BotConfig : Type 0 where
  pub app_id : Text
  pub private_key : Text
  pub webhook_secret : Text
  pub host : Text
  pub port : ℕ

pub record Comment : Type 0 where
  pub author_association : Option Text
  pub user_type : Option Text
  pub user_login : Option Text
  pub body : Option Text

pub record Issue : Type 0 where
  pub number : Option ℕ
  pub is_pull_request : Bool
  pub user_login : Option Text

pub record PullRequest : Type 0 where
  pub number : Option ℕ
  pub head_sha : Option Text
  pub user_login : Option Text

pub record Repository : Type 0 where
  pub full_name : Option Text
  pub owner_login : Option Text

pub record Reaction : Type 0 where
  pub author_association : Option Text
  pub user_login : Option Text
  pub content : Option Text

-- The comments of a thread, in their order.
pub record Thread : Type 0 where
  pub comments : List Comment

pub record Commit : Type 0 where
  pub added : List Text
  pub modified : List Text

pub record WebhookPayload : Type 0 where
  pub action : Text
  pub pull_request : Option PullRequest
  pub repo : Option Repository
  pub installation : Option ℕ
  pub comment : Option Comment
  pub issue : Option Issue
  pub reaction : Option Reaction
  pub thread : Option Thread
  pub sender_login : Option Text
  pub after : Option Text
  pub commits : Option (List Commit)

abbrev pub text_or_empty : Option Text → Text
text_or_empty none = []
text_or_empty (some t) = t

abbrev pub and_then {ℓ κ} : {A : Type ℓ} {B : Type κ} → (A → Option B) → Option A → Option B
and_then f none = none
and_then f (some a) = f a

abbrev pub eq_ignore_ascii_case : Text → Text → Bool
eq_ignore_ascii_case a b = text_eq (to_ascii_lowercase a) (to_ascii_lowercase b)

unfoldable pub verify_signature : (Text → Text → Text) → Text → Text → Text → Bool
verify_signature hmac_hex secret body signature =
    not (is_empty_text secret) && elim (strip_prefix (codes "sha256=") signature) [
      | none ↦ false
      | some sig_hex ↦ text_eq (hmac_hex secret body) sig_hex
    ]

abbrev pub commit_paths : List Commit → List Text
commit_paths [] = []
commit_paths (c ∷ cs) = c.added ++ (c.modified ++ commit_paths cs)

unfoldable pub payload_commits_paths : WebhookPayload → List Text
payload_commits_paths p = elim p.commits [ none ↦ [] | some cs ↦ commit_paths cs ]

abbrev pub comment_author_login : WebhookPayload → Text
comment_author_login p = text_or_empty (and_then (λ (c : Comment). c.user_login) p.comment)

abbrev pub comment_author_association : WebhookPayload → Text
comment_author_association p =
    text_or_empty (and_then (λ (c : Comment). c.author_association) p.comment)

-- The app's own login, with the slug that the environment gives.
abbrev pub is_own_login : Option Text → Text → Bool
is_own_login none login = false
is_own_login (some raw) login =
    let slug = to_ascii_lowercase (trim raw) in
    not (is_empty_text slug) && (text_eq login slug || text_eq login (slug ++ codes "[bot]"))

abbrev pub is_bot_type : Option Text → Bool
is_bot_type none = false
is_bot_type (some t) = eq_ignore_ascii_case t (codes "Bot")

abbrev pub is_bot_login : Option Text → Text → Bool
is_bot_login slug login =
    not (is_empty_text login)
    && (ends_with (codes "[bot]") (to_ascii_lowercase login)
        || is_own_login slug (to_ascii_lowercase login))

abbrev pub from_bot : Option Text → Option Comment → Bool
from_bot slug none = false
from_bot slug (some c) = is_bot_type c.user_type || is_bot_login slug (text_or_empty c.user_login)

unfoldable pub comment_from_bot : Option Text → WebhookPayload → Bool
comment_from_bot slug p = from_bot slug p.comment

abbrev pub is_trusted_association : Text → Bool
is_trusted_association a = text_one_of a ("OWNER" ∷ "MEMBER" ∷ "COLLABORATOR" ∷ "CONTRIBUTOR" ∷ [])

abbrev pub repo_owner_login : WebhookPayload → Text
repo_owner_login p = text_or_empty (and_then (λ (r : Repository). r.owner_login) p.repo)

abbrev pub issue_author : WebhookPayload → Option Text
issue_author p = and_then (λ (i : Issue). i.user_login) p.issue

unfoldable pub author_can_command : WebhookPayload → Bool
author_can_command p =
    let commenter = comment_author_login p in
    is_trusted_association (comment_author_association p)
    || (not (is_empty_text commenter)
        && (eq_ignore_ascii_case commenter (repo_owner_login p)
            || eq_ignore_ascii_case commenter (text_or_empty (issue_author p))))

abbrev pub pr_author_login : WebhookPayload → Text
pr_author_login p =
    text_or_empty
      (or_else (issue_author p) (and_then (λ (r : PullRequest). r.user_login) p.pull_request))

unfoldable pub actor_can_dismiss : Text → Option Text → Text → Text → Bool
actor_can_dismiss assoc login repo_owner pr_author = is_trusted_association assoc || elim login [
  | none ↦ false
  | some l ↦
      not (is_empty_text l)
      && (eq_ignore_ascii_case l repo_owner || eq_ignore_ascii_case l pr_author)
]

unfoldable pub reactor_can_dismiss : WebhookPayload → Bool
unfolding actor_can_dismiss
reactor_can_dismiss p =
    actor_can_dismiss (text_or_empty (and_then (λ (r : Reaction). r.author_association) p.reaction))
      (or_else (and_then (λ (r : Reaction). r.user_login) p.reaction) p.sender_login)
      (repo_owner_login p) (pr_author_login p)

abbrev pub first_comment : List Comment → Option Comment
first_comment [] = none
first_comment (c ∷ cs) = some c

abbrev pub opening_comment : WebhookPayload → Option Comment
opening_comment p = and_then (λ (t : Thread). first_comment t.comments) p.thread

unfoldable pub thread_resolver_can_dismiss : WebhookPayload → Bool
unfolding actor_can_dismiss
thread_resolver_can_dismiss p =
    actor_can_dismiss
      (text_or_empty (and_then (λ (c : Comment). c.author_association) (opening_comment p)))
      (or_else (and_then (λ (c : Comment). c.user_login) (opening_comment p)) p.sender_login)
      (repo_owner_login p) (pr_author_login p)
