-- ===== src/Tests/Hooks.antt =====
-- What GitHub delivers, at concrete requests.
use codasaurus.Commands
use codasaurus.Commands.{
  BotCommand, parse_bot_command, is_bot_addressed, extract_ask_question, extract_ignore_fingerprint,
}
use codasaurus.Reactions.{fingerprint_from_comment_body}
use codasaurus.Webhook.{
  Comment, WebhookPayload, verify_signature, thread_resolver_can_dismiss, author_can_command,
  comment_from_bot, reactor_can_dismiss,
}
use codasaurus.Webhook.Handler.{
  Request, Outside, Task, run_command, notify_denied, handle_webhook, is_duplicate_delivery, route,
}
use codasaurus.Webhook.Replays.{Event, arrival, cleanup, deliveries_after, handle_webhook-once}
use codasaurus.Webhook.Accepting.{Accepted}
use codasaurus.Webhook.Trusted.{Commanded, handle_webhook-Commanded}
use codasaurus.Webhook.Untrusted.{Idle, route-Idle}
use codasaurus.Tests.Learned.{same, fresh, store, config}
use codasaurus.Prelude.{
  codes, text_le, is_empty_text, List, [], ◌∷◌, ◌++◌, Memᴰ, none, some, true, false, if◌then◌else◌,
  ◌≡◌, refl, sym, ◌∙◌, subst, ◌≢◌, arith,
}

ignore_by_comment :
    parse_bot_command none (codes "@codasaurus ignore 0123456789ab thanks")
    ≡ some (Commands.ignore (some (codes "0123456789ab")))
unfolding parse_bot_command extract_ignore_fingerprint
ignore_by_comment = refl

-- A question in which a word of another command stands is taken for that command.
shadowed_question :
    parse_bot_command none (codes "@codasaurus ask what is the impact?") ≡ some Commands.impact
unfolding parse_bot_command
shadowed_question = refl

fingerprint_line :
    fingerprint_from_comment_body (codes "secret\n`fingerprint: abcdef012345` and more")
    ≡ some (codes "abcdef012345")
unfolding fingerprint_from_comment_body
fingerprint_line = refl

abbrev octo : Comment
octo = record {
  author_association = some (codes "NONE");
  user_type = some (codes "User");
  user_login = some (codes "octo");
  body = some (codes "@codasaurus review");
}

abbrev payload : Comment → WebhookPayload
payload c = record {
  action = codes "created";
  pull_request = none;
  repo = some (record { full_name = some (codes "acme/api"); owner_login = some (codes "acme") });
  installation = some 3;
  comment = some c;
  issue =
      some (record { number = some 7; is_pull_request = true; user_login = some (codes "Octo") });
  reaction = none;
  thread = some (record { comments = c ∷ [] });
  sender_login = some (codes "mallory");
  after = none;
  commits = none;
}

abbrev outside : Outside
outside = record {
  hmac_hex = λ secret body. secret ++ body;
  from_json = λ body. if is_empty_text body then none else some (payload octo);
  slug = none;
  current =
      some
        (record { app_id = []; private_key = []; webhook_secret = codes "k"; host = []; port = 1 });
  reloaded = none;
  recording = true;
}

abbrev request : Request
request = record {
  signature = some (codes "sha256=kb");
  delivery_id = some (codes "d1");
  event = some (codes "issue_comment");
  body = codes "b";
}

abbrev review_task : Task
review_task = run_command (codes "acme/api") 7 Commands.review

starts_review : (handle_webhook outside 5 request []).1 ≡ review_task ∷ []
unfolding handle_webhook is_duplicate_delivery verify_signature route comment_from_bot
    author_can_command parse_bot_command
starts_review = refl

abbrev between : List Event
between =
    arrival outside 80 (record request { delivery_id = some (codes "d2") }) ∷ cleanup 1_209_600 ∷ []

handle_webhook-once_example :
    (handle_webhook outside 1_209_605 request
      (deliveries_after between (handle_webhook outside 5 request []).2)).1
    ≡ []
handle_webhook-once_example =
    handle_webhook-once outside 5 request [] between outside 1_209_605 request refl started
      (omega arith, (omega arith, tt)) (omega arith) refl refl
  where
    started : (handle_webhook outside 5 request []).1 ≢ []
    started e = cc (sym starts_review ∙ e)

handle_webhook-Commanded_example :
    (a : Accepted outside request [] (handle_webhook outside 5 request []).1) × Commanded
      outside.slug a.payload
      (codes "acme/api")
      7
      Commands.review
handle_webhook-Commanded_example =
    handle_webhook-Commanded outside 5 request [] (codes "acme/api") 7 Commands.review
      (subst (Memᴰ review_task) (sym starts_review) (Memᴰ.head refl))

abbrev stranger : Comment
stranger = record octo { user_login = some (codes "eve") }

strangers :
    (author_can_command (payload stranger) ≡ false)
    × (reactor_can_dismiss (payload stranger) ≡ false)
    × (thread_resolver_can_dismiss (payload stranger) ≡ false)
unfolding author_can_command reactor_can_dismiss thread_resolver_can_dismiss
strangers = (refl, refl, refl)

abbrev refusal : WebhookPayload
refusal = payload stranger

-- The command of a stranger is answered with a refusal.
stranger_tasks :
    (route none (codes "issue_comment") refusal).1
    ≡ notify_denied 7 (codes "eve") (codes "NONE") ∷ []
unfolding route comment_from_bot author_can_command parse_bot_command
stranger_tasks = refl

route-Idle_example :
    Idle text_le same fresh config 5 refusal store (route none (codes "issue_comment") refusal).1
route-Idle_example =
    route-Idle text_le same fresh config 5 refusal store none (codes "issue_comment") strangers.0
      strangers.1 strangers.2 refl
