-- ===== src/Webhook/Handler.antt =====
-- src/bot/mod.rs: `handle_webhook`, from the signature to the task that it starts, and what the
-- tasks do to the queue of reviews and to the learned store.
use codasaurus.Commands.{BotCommand, parse_bot_command}
use codasaurus.Webhook.{
  BotConfig, Comment, Issue, Repository, Reaction, WebhookPayload, text_or_empty, and_then,
  verify_signature, payload_commits_paths, comment_author_login, comment_author_association,
  comment_from_bot, author_can_command, reactor_can_dismiss, thread_resolver_can_dismiss,
}
use codasaurus.Prelude.{
  ℕ, ◌+◌, String, Text, codes, text_eq, ends_with, to_ascii_lowercase, text_one_of, is_empty_text,
  List, [], ◌∷◌, ◌++◌, map, Option, none, some, Bool, true, false, not, ◌&&◌, ◌||◌, ltb, ◌==◌,
  if◌then◌else◌, is_nil, retain, any, all,
}

pub record Delivery : Type 0 where
  pub delivery_id : Text
  pub received_at : ℕ

abbrev pub fourteen_days : ℕ
fourteen_days = 1_209_600

abbrev pub is_delivery : Text → Delivery → Bool
is_delivery id d = text_eq d.delivery_id id

-- `INSERT … ON CONFLICT DO NOTHING`, and after a new row the removal of those older than 14 days.
-- Where there is no database, or the statement fails, nothing is recorded.
unfoldable pub is_duplicate_delivery : Bool → ℕ → Text → List Delivery → Bool × List Delivery
is_duplicate_delivery recording now id rows =
    if not recording then (false, rows) else if any (is_delivery id) rows then (true, rows) else (
      false,
      retain (λ d. not (ltb (d.received_at + fourteen_days) now))
          (rows ++ record { delivery_id = id; received_at = now } ∷ []),
    )

-- src/bot/maintenance.rs: what an idle worker does to the deliveries.
unfoldable pub run_periodic_cleanup : ℕ → List Delivery → List Delivery
run_periodic_cleanup now rows = retain (λ d. not (ltb (d.received_at + fourteen_days) now)) rows

pub data Task : Type 0 where
  review_pr : Text → Option ℕ → ℕ → Text → Text → Task
  index_push : Text → Text → List Text → Task
  notify_denied : ℕ → Text → Text → Task
  run_command : Text → ℕ → BotCommand → Task
  learn_reaction : Text → Text → Text → Bool → Task
  learn_thread : Text → List (Option Text) → Text → Bool → Task
  installation_created installation_deleted repos_added : Task

pub data Reply : Type 0 where
  internal_error unauthorized bad_request : Reply
  ok duplicate ignored_bot_comment : Reply

abbrev pub full_name_or : Text → WebhookPayload → Text
full_name_or other p = elim (and_then (λ (r : Repository). r.full_name) p.repo) [
  | none ↦ other
  | some n ↦ n
]

abbrev pub number_or_zero : Option ℕ → ℕ
number_or_zero none = 0
number_or_zero (some n) = n

abbrev pub on_pull_request : WebhookPayload → List Task
on_pull_request p = elim p.pull_request [
  | none ↦ []
  | some pr ↦
      review_pr (full_name_or (codes "unknown") p) p.installation (number_or_zero pr.number)
        (text_or_empty pr.head_sha) p.action
      ∷ []
]

abbrev pub is_indexed_path : Text → Bool
is_indexed_path path =
    let lower = to_ascii_lowercase path in
    any (λ e. ends_with (codes e) lower)
      (".rs" ∷ ".go" ∷ ".py" ∷ ".js" ∷ ".jsx" ∷ ".mjs" ∷ ".ts" ∷ ".tsx" ∷ [])

-- A branch that was deleted has a head of zeros.
abbrev pub on_push : WebhookPayload → List Task
on_push p =
    let repo = full_name_or (codes "unknown") p in
    let sha = text_or_empty p.after in
    let changed = retain is_indexed_path (payload_commits_paths p) in
    if not (text_eq repo (codes "unknown"))
      && (not (is_empty_text sha || all (λ c. c == b'0') sha) && not (is_nil changed))
    then index_push repo sha changed ∷ []
    else []

abbrev pub is_pull_request_comment : WebhookPayload → Bool
is_pull_request_comment p = elim p.issue [ none ↦ false | some i ↦ i.is_pull_request ]

abbrev pub issue_number : WebhookPayload → ℕ
issue_number p = number_or_zero (and_then (λ (i : Issue). i.number) p.issue)

abbrev pub on_command : Option BotCommand → WebhookPayload → List Task
on_command none p = []
on_command (some cmd) p =
    let here = is_pull_request_comment p && ltb 0 (issue_number p) in
    if not (author_can_command p)
    then (if here
        then notify_denied (issue_number p) (comment_author_login p) (comment_author_association p)
          ∷ []
        else [])
    else if here
    then run_command (full_name_or (codes "unknown") p) (issue_number p) cmd ∷ []
    else []

abbrev pub comment_body : WebhookPayload → Text
comment_body p = text_or_empty (and_then (λ (c : Comment). c.body) p.comment)

abbrev pub on_reaction : WebhookPayload → List Task
on_reaction p =
    let content = text_or_empty (and_then (λ (r : Reaction). r.content) p.reaction) in
    let repo = full_name_or [] p in
    if not (is_empty_text content)
      && (not (is_empty_text (comment_body p)) && not (is_empty_text repo))
    then learn_reaction content (comment_body p) repo (reactor_can_dismiss p) ∷ []
    else []

abbrev pub on_thread : WebhookPayload → List Task
on_thread p =
    let repo = full_name_or [] p in
    if is_empty_text repo then [] else elim p.thread [
      | none ↦ []
      | some t ↦
          learn_thread p.action (map (λ (c : Comment). c.body) t.comments) repo
            (thread_resolver_can_dismiss p)
          ∷ []
    ]

abbrev pub event_is : String → List String → Text → WebhookPayload → Bool
event_is name actions event p = text_eq event (codes name) && text_one_of p.action actions

unfoldable pub route : Option Text → Text → WebhookPayload → Reply × List Task
route slug event p =
    if event_is "pull_request" ("opened" ∷ "reopened" ∷ "synchronize" ∷ "ready_for_review" ∷ [])
      event p
    then (ok, on_pull_request p)
    else if text_eq event (codes "push")
    then (ok, on_push p)
    else if event_is "issue_comment" ("created" ∷ []) event p
    then (if comment_from_bot slug p
        then (ignored_bot_comment, [])
        else (ok, on_command (parse_bot_command slug (comment_body p)) p))
    else if event_is "reaction" ("created" ∷ []) event p
    then (ok, on_reaction p)
    else if event_is "pull_request_review_thread" ("resolved" ∷ "unresolved" ∷ []) event p
    then (ok, on_thread p)
    else if event_is "installation" ("created" ∷ []) event p
    then (ok, installation_created ∷ [])
    else if event_is "installation" ("deleted" ∷ []) event p
    then (ok, installation_deleted ∷ [])
    else if event_is "installation_repositories" ("added" ∷ []) event p
    then (ok, repos_added ∷ [])
    else (ok, [])

pub record Request : Type 0 where
  pub signature : Option Text
  pub delivery_id : Option Text
  pub event : Option Text
  pub body : Text

abbrev pub has_secret : Option BotConfig → Bool
has_secret none = false
has_secret (some c) = not (is_empty_text c.webhook_secret)

-- A configuration without a secret is loaded again.
abbrev pub effective : Option BotConfig → Option BotConfig → Option BotConfig
effective current reloaded =
    if has_secret current then current else if has_secret reloaded then reloaded else current

-- The code that is not in this repository, and the environment.
pub record Outside : Type 0 where
  pub hmac_hex : Text → Text → Text
  pub from_json : Text → Option WebhookPayload
  pub slug : Option Text
  pub current : Option BotConfig
  pub reloaded : Option BotConfig
  pub recording : Bool

-- What is answered, what is started, and the deliveries on record.
abbrev pub Handled : Type 0
Handled = Reply × List Task × List Delivery

abbrev pub after_parse : Outside → Request → Option WebhookPayload → List Delivery → Handled
after_parse out r none rows = (bad_request, [], rows)
after_parse out r (some p) rows = (
  (route out.slug (text_or_empty r.event) p).0,
  (route out.slug (text_or_empty r.event) p).1,
  rows,
)

abbrev pub after_delivery : Outside → Request → Bool × List Delivery → Handled
after_delivery out r (true, rows) = (duplicate, [], rows)
after_delivery out r (false, rows) = after_parse out r (out.from_json r.body) rows

abbrev pub with_config : Outside → ℕ → Request → List Delivery → Option BotConfig → Handled
with_config out now r rows none = (internal_error, [], rows)
with_config out now r rows (some config) =
    if not (verify_signature out.hmac_hex config.webhook_secret r.body (text_or_empty r.signature))
    then (unauthorized, [], rows)
    else if is_empty_text (text_or_empty r.delivery_id)
    then (bad_request, [], rows)
    else after_delivery out r
        (is_duplicate_delivery out.recording now (text_or_empty r.delivery_id) rows)

unfoldable pub handle_webhook : Outside → ℕ → Request → List Delivery → Handled
handle_webhook out now r rows = with_config out now r rows (effective out.current out.reloaded)
