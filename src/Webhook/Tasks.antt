-- ===== src/Webhook/Tasks.antt =====
-- src/bot/mod.rs and src/bot/commands.rs: what a started task writes into the learned store. The
-- statements of the tasks succeed.
use codasaurus.Commands.{BotCommand, ignore, approve_rule}
use codasaurus.Reactions.{handle_reaction_event, handle_thread_event}
use codasaurus.Learning.Store as Learned
use codasaurus.Learning.Promotion.{LearningConfig, dismiss_fingerprint_for_repo}
use codasaurus.Webhook.Handler.{
  Task, review_pr, index_push, notify_denied, run_command, learn_reaction, learn_thread,
  installation_created, installation_deleted, repos_added,
}
use codasaurus.Prelude.{ℕ, Text, codes, Option, none, some, Bool, false}

-- A review, on the queue or at once when there is no queue, is work of the pipeline, which mines the
-- comments of the pull request too.
abbrev pub IsReview : Task → Type 0
IsReview (review_pr repo inst pr sha action) = Unit
IsReview t = ⊥

module _ (id_le : Text → Text → Bool) (to_lowercase : Text → Text) (uuid : Learned.Store → Text)
    (cfg : LearningConfig) (now : ℕ) where
  -- The commands that write into the store themselves; the others are not followed.
  abbrev pub command_store : Text → ℕ → BotCommand → Learned.Store → Option Learned.Store
  command_store repo pr (ignore (some fp)) s = some (
      dismiss_fingerprint_for_repo id_le to_lowercase uuid cfg now fp "manual" repo
        (codes "dismissed via comment") (some repo) (some pr) none false s)
  command_store repo pr (approve_rule (some id)) s = some (Learned.approve_rule now id s).1
  command_store repo pr other s = none

  -- The store after a task; `none` for reviews and for the commands that are not followed.
  unfoldable pub learn : Task → Learned.Store → Option Learned.Store
  learn (review_pr repo inst pr sha action) s = none
  learn (run_command repo pr cmd) s = command_store repo pr cmd s
  learn (learn_reaction content body repo allowed) s =
      some
        (handle_reaction_event id_le to_lowercase uuid cfg now (codes "created") content body repo
          allowed s).1
  learn (learn_thread action bodies repo allowed) s =
      some (handle_thread_event id_le to_lowercase uuid cfg now action bodies repo allowed s).1
  learn (index_push repo sha paths) s = some s
  learn (notify_denied pr login assoc) s = some s
  learn installation_created s = some s
  learn installation_deleted s = some s
  learn repos_added s = some s
