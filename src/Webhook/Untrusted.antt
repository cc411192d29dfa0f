-- ===== src/Webhook/Untrusted.antt =====
-- src/bot/mod.rs: what a payload without a trusted actor can teach.
use codasaurus.Commands.{BotCommand, parse_bot_command}
use codasaurus.Reactions.{
  handle_reaction_event, handle_thread_event, react, thread_change, is_dismiss_reaction,
  fingerprint_from_comment_body, fingerprint_from_thread,
}
use codasaurus.Learning.Store as Learned
use codasaurus.Learning.Promotion.{LearningConfig}
use codasaurus.Webhook.{
  Comment, WebhookPayload, comment_from_bot, author_can_command, reactor_can_dismiss,
  thread_resolver_can_dismiss, opening_comment,
}
use codasaurus.Webhook.Handler.{
  Task, Reply, ok, ignored_bot_comment, route, index_push, notify_denied, learn_reaction,
  learn_thread, installation_created, installation_deleted, repos_added, on_pull_request, on_push,
  on_command, on_reaction, on_thread, comment_body, full_name_or,
}
use codasaurus.Webhook.Tasks.{IsReview, learn}
use codasaurus.Prelude.{
  ℕ, Text, codes, text_eq, is_empty_text, List, [], ◌∷◌, Option, none, some, Bool, true, false,
  if◌then◌else◌, Bool-cases, Option-cases, All, ◌≡◌, refl, ap, ◌⊎◌, inl, inr,
}

module _ (id_le : Text → Text → Bool) (to_lowercase : Text → Text) (uuid : Learned.Store → Text)
    (cfg : LearningConfig) (now : ℕ) (p : WebhookPayload) (s : Learned.Store) where
  -- The tasks leave the learned store as it was, except that reviews are left out.
  abbrev pub Idle : List Task → Type 0
  Idle ts = All (λ t. IsReview t ⊎ (learn id_le to_lowercase uuid cfg now t s ≡ some s)) ts

  abbrev Quiet : Reply × List Task → Type 0
  Quiet answer = Idle answer.1

  Idle-if : (t : Task) (b : Bool) → Idle (t ∷ []) → Idle (if b then t ∷ [] else [])
  Idle-if t true h = h
  Idle-if t false h = tt

  on_pull_request-Idle : Idle (on_pull_request p)
  on_pull_request-Idle = elim (Option-cases p.pull_request) [
    | inl e ↦ rw e tt
    | inr (pr, e) ↦ rw e (inl tt, tt)
  ]

  on_push-Idle : Idle (on_push p)
  unfolding learn
  on_push-Idle = Idle-if (index_push _ _ _) _ (inr refl, tt)

  on_command-Idle : (o : Option BotCommand) → author_can_command p ≡ false → Idle (on_command o p)
  unfolding learn
  on_command-Idle none h = tt
  on_command-Idle (some cmd) h = rw h (Idle-if (notify_denied _ _ _) _ (inr refl, tt))

  reaction-Idle : (content body repo : Text) → Idle (learn_reaction content body repo false ∷ [])
  unfolding learn handle_reaction_event
  reaction-Idle content body repo = (inr (ap some (each (fingerprint_from_comment_body body))), tt)
    where
      each :
          (o : Option Text) → (react id_le to_lowercase uuid cfg now o content repo false s).1 ≡ s
      each none = refl
      each (some fp) = elim (Bool-cases (is_dismiss_reaction content)) [
        | inl e ↦ rw e
        | inr e ↦ rw e
      ]

  on_reaction-Idle : reactor_can_dismiss p ≡ false → Idle (on_reaction p)
  on_reaction-Idle h = Idle-if (learn_reaction _ _ _ _) _ (rw h (reaction-Idle _ _ _))

  thread-Idle :
      (bodies : List (Option Text)) (repo : Text)
      → text_eq p.action (codes "unresolved") ≡ false
      → Idle (learn_thread p.action bodies repo false ∷ [])
  unfolding learn handle_thread_event
  thread-Idle bodies repo h = (inr (ap some (each (fingerprint_from_thread bodies))), tt)
    where
      each :
          (o : Option Text)
          → (thread_change id_le to_lowercase uuid cfg now o p.action repo false s).1 ≡ s
      each none = refl
      each (some fp) = elim (Bool-cases (text_eq p.action (codes "resolved"))) [
        | inl e ↦ rw e
        | inr e ↦ rw (e, h)
      ]

  on_thread-Idle :
      thread_resolver_can_dismiss p ≡ false
      → text_eq p.action (codes "unresolved") ≡ false
      → Idle (on_thread p)
  on_thread-Idle h k = elim (Bool-cases (is_empty_text (full_name_or [] p))) [
    | inl e ↦ rw e tt
    | inr e ↦ elim (Option-cases p.thread) [
      | inl q ↦ rw (e, q) tt
      | inr (t, q) ↦ rw (e, q, h) (thread-Idle _ _ k)
    ]
  ]

  -- Where the code trusts neither the author of the comment, nor the one who reacts, nor the account
  -- that it takes for the resolver of a thread, which is the author of the first comment and the sender
  -- only if that names no one, every task that an event starts is a review or leaves the dismissals and
  -- the rules as they are, unless a thread is unresolved. What a review mines is not part of this.
  pub route-Idle :
      (slug : Option Text) (event : Text)
      → author_can_command p ≡ false
      → reactor_can_dismiss p ≡ false
      → thread_resolver_can_dismiss p ≡ false
      → text_eq p.action (codes "unresolved") ≡ false
      → Idle (route slug event p).1
  unfolding route learn
  route-Idle slug event h k l m = pick _ _ _ _ _ _ _ _
    where
      comment :
          (b : Bool)
          → Quiet (
              if b
              then (ignored_bot_comment, [])
              else (ok, on_command (parse_bot_command slug (comment_body p)) p))
      comment true = tt
      comment false = on_command-Idle (parse_bot_command slug (comment_body p)) h

      pick :
          (a b c d e f g i : Bool)
          → Quiet (
              if a
              then (ok, on_pull_request p)
              else if b
              then (ok, on_push p)
              else if c
              then (if comment_from_bot slug p
                  then (ignored_bot_comment, [])
                  else (ok, on_command (parse_bot_command slug (comment_body p)) p))
              else if d
              then (ok, on_reaction p)
              else if e
              then (ok, on_thread p)
              else if f
              then (ok, installation_created ∷ [])
              else if g
              then (ok, installation_deleted ∷ [])
              else if i
              then (ok, repos_added ∷ [])
              else (ok, []))
      pick true b c d e f g i = on_pull_request-Idle
      pick false true c d e f g i = on_push-Idle
      pick false false true d e f g i = comment (comment_from_bot slug p)
      pick false false false true e f g i = on_reaction-Idle k
      pick false false false false true f g i = on_thread-Idle l m
      pick false false false false false true g i = (inr refl, tt)
      pick false false false false false false true i = (inr refl, tt)
      pick false false false false false false false true = (inr refl, tt)
      pick false false false false false false false false = tt

-- Where the first comment of a thread names its author, that author decides whether resolving the
-- thread dismisses the finding: who resolves it does not matter.
pub thread_resolver_can_dismiss-sender :
    (p : WebhookPayload) (c : Comment) (login : Text) (sender : Option Text)
    → opening_comment p ≡ some c
    → c.user_login ≡ some login
    → thread_resolver_can_dismiss (record p { sender_login = sender })
      ≡ thread_resolver_can_dismiss p
unfolding thread_resolver_can_dismiss
thread_resolver_can_dismiss-sender p c login sender e k = rw (e, k)
