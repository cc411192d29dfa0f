-- ===== src/Webhook/Trusted.antt =====
-- src/bot/mod.rs: whom the webhook obeys.
use codasaurus.Commands.{BotCommand, parse_bot_command}
use codasaurus.Webhook.{WebhookPayload, text_or_empty, comment_from_bot, author_can_command}
use codasaurus.Webhook.Handler.{
  Delivery, Request, Outside, Task, Reply, ok, ignored_bot_comment, route, run_command, index_push,
  notify_denied, learn_reaction, installation_created, installation_deleted, repos_added,
  on_pull_request, on_push, on_command, on_reaction, on_thread, comment_body,
  is_pull_request_comment, issue_number, full_name_or, handle_webhook,
}
use mathlib.Core.List.Memᴰ
use codasaurus.Webhook.Accepting.{Accepted, handle_webhook-Accepted}
use codasaurus.Prelude.{
  ℕ, ◌<◌, Text, codes, is_empty_text, List, [], ◌∷◌, Memᴰ, Option, none, some, Bool, true, false,
  ◌&&◌, ltb, if◌then◌else◌, Bool-cases, Option-cases, any, ◌≡◌, refl, subst, ◌⊎◌, inl, inr, arith,
}

-- A command of a payload: from a comment on a pull request, by a person who may command.
pub record Commanded (slug : Option Text) (p : WebhookPayload) (repo : Text) (pr : ℕ)
    (cmd : BotCommand) : Type 0 where
  pub person : comment_from_bot slug p ≡ false
  pub allowed : author_can_command p ≡ true
  pub spoken : parse_bot_command slug (comment_body p) ≡ some cmd
  pub on_pull_request : is_pull_request_comment p ≡ true
  pub number : pr ≡ issue_number p
  pub positive : 0 < pr
  pub place : repo ≡ full_name_or (codes "unknown") p

-- The command among the tasks of a payload.
abbrev pub CommandOf : List Task → Text → ℕ → BotCommand → Type 0
CommandOf ts repo pr cmd = Memᴰ (run_command repo pr cmd) ts

pub on_command-Commanded :
    (o : Option BotCommand) (p : WebhookPayload) (repo : Text) (pr : ℕ) (cmd : BotCommand)
    → CommandOf (on_command o p) repo pr cmd
    → (o ≡ some cmd)
      × (author_can_command p ≡ true)
      × (is_pull_request_comment p ≡ true)
      × (pr ≡ issue_number p)
      × (0 < pr)
      × (repo ≡ full_name_or (codes "unknown") p)
on_command-Commanded none p repo pr cmd m = elim m [ ]
on_command-Commanded (some c) p repo pr cmd m = elim (Bool-cases (author_can_command p)) [
  | inr e ↦ elim (Bool-cases (is_pull_request_comment p && ltb 0 (issue_number p))) [
    | inl q ↦ absurd (denied (Memᴰ.eq_of_singleton (rw (e, q) at m)))
    | inr q ↦ absurd (Memᴰ.not-nil (rw (e, q) at m))
  ]
  | inl e ↦ elim (Bool-cases (is_pull_request_comment p && ltb 0 (issue_number p))) [
    | inl q ↦ heard e q (Memᴰ.eq_of_singleton (rw (e, q) at m))
    | inr q ↦ absurd (Memᴰ.not-nil (rw (e, q) at m))
  ]
]
  where
    denied : {n : ℕ} {l a : Text} → run_command repo pr cmd ≡ notify_denied n l a → ⊥
    denied e = cc

    heard :
        author_can_command p ≡ true
        → (is_pull_request_comment p && ltb 0 (issue_number p)) ≡ true
        → run_command repo pr cmd
          ≡ run_command (full_name_or (codes "unknown") p) (issue_number p) c
        → (some c ≡ some cmd)
          × (author_can_command p ≡ true)
          × (is_pull_request_comment p ≡ true)
          × (pr ≡ issue_number p)
          × (0 < pr)
          × (repo ≡ full_name_or (codes "unknown") p)
    heard e q same =
        let number : pr ≡ issue_number p = cc in
        let positive : 0 < issue_number p = ground arith in
        (cc, e, ground arith, number, omega arith, cc)

abbrev is_command : Task → Bool
is_command (run_command repo pr cmd) = true
is_command other = false

no_command :
    (ts : List Task) (repo : Text) (pr : ℕ) (cmd : BotCommand)
    → any is_command ts ≡ false
    → CommandOf ts repo pr cmd
    → ⊥
no_command [] repo pr cmd e m = elim m [ ]
no_command (t ∷ ts) repo pr cmd e (Memᴰ.head same) =
    (let hit : is_command t ≡ true = rw (← same) refl in
        λ (k : any is_command (t ∷ ts) ≡ false). clash hit k)
      e
  where
    clash : is_command t ≡ true → any is_command (t ∷ ts) ≡ false → ⊥
    clash h k = cc (rw h at k)
no_command (t ∷ ts) repo pr cmd e (Memᴰ.tail m) = no_command ts repo pr cmd (ground arith) m

on_pull_request-quiet : (p : WebhookPayload) → any is_command (on_pull_request p) ≡ false
on_pull_request-quiet p = elim (Option-cases p.pull_request) [ inl e ↦ rw e | inr (pr, e) ↦ rw e ]

quiet_if :
    (t : Task) (b : Bool) → is_command t ≡ false → any is_command (if b then t ∷ [] else []) ≡ false
quiet_if t true e = rw e
quiet_if t false e = refl

on_push-quiet : (p : WebhookPayload) → any is_command (on_push p) ≡ false
on_push-quiet p = quiet_if (index_push _ _ _) _ refl

on_reaction-quiet : (p : WebhookPayload) → any is_command (on_reaction p) ≡ false
on_reaction-quiet p = quiet_if (learn_reaction _ _ _ _) _ refl

on_thread-quiet : (p : WebhookPayload) → any is_command (on_thread p) ≡ false
on_thread-quiet p = elim (Bool-cases (is_empty_text (full_name_or [] p))) [
  | inl e ↦ rw e
  | inr e ↦ elim (Option-cases p.thread) [ inl q ↦ rw (e, q) | inr (t, q) ↦ rw (e, q) ]
]

route-Commanded :
    (slug : Option Text) (event : Text) (p : WebhookPayload) (repo : Text) (pr : ℕ)
    (cmd : BotCommand)
    → CommandOf (route slug event p).1 repo pr cmd
    → Commanded slug p repo pr cmd
unfolding route
route-Commanded slug event p repo pr cmd =
    pick _ _ _ _ _ _ _ _ (Bool-cases (comment_from_bot slug p))
  where
    Result : Reply × List Task → Type 0
    Result x = CommandOf x.1 repo pr cmd → Commanded slug p repo pr cmd

    quiet : (x : Reply × List Task) → any is_command x.1 ≡ false → Result x
    quiet x e m = absurd (no_command x.1 repo pr cmd e m)

    comment :
        (comment_from_bot slug p ≡ true) ⊎ (comment_from_bot slug p ≡ false)
        → Result (
            if comment_from_bot slug p
            then (ignored_bot_comment, [])
            else (ok, on_command (parse_bot_command slug (comment_body p)) p))
    comment (inl e) = rw e (λ m. elim m [ ])
    comment (inr e) = rw e (λ m.
        let (spoken, allowed, on_pr, number, positive, place) =
          on_command-Commanded (parse_bot_command slug (comment_body p)) p repo pr cmd m in
        record {
          person = e;
          allowed = allowed;
          spoken = spoken;
          on_pull_request = on_pr;
          number = number;
          positive = positive;
          place = place;
        })

    pick :
        (a b c d e f g h : Bool)
        → (comment_from_bot slug p ≡ true) ⊎ (comment_from_bot slug p ≡ false)
        → Result (
            if a
            then (ok, on_pull_request p)
            else if b
            then (ok, on_push p)
            else if c
            then (if comment_from_bot slug p
                then (ignored_bot_comment, [])
                else (ok, on_command (parse_bot_command slug (comment_body p)) p))
            else if d
            then (ok, on_reaction p)
            else if e
            then (ok, on_thread p)
            else if f
            then (ok, installation_created ∷ [])
            else if g
            then (ok, installation_deleted ∷ [])
            else if h
            then (ok, repos_added ∷ [])
            else (ok, []))
    pick true b c d e f g h k = quiet (ok, on_pull_request p) (on_pull_request-quiet p)
    pick false true c d e f g h k = quiet (ok, on_push p) (on_push-quiet p)
    pick false false true d e f g h k = comment k
    pick false false false true e f g h k = quiet (ok, on_reaction p) (on_reaction-quiet p)
    pick false false false false true f g h k = quiet (ok, on_thread p) (on_thread-quiet p)
    pick false false false false false true g h k = quiet (ok, installation_created ∷ []) refl
    pick false false false false false false true h k = quiet (ok, installation_deleted ∷ []) refl
    pick false false false false false false false true k = quiet (ok, repos_added ∷ []) refl
    pick false false false false false false false false k = quiet (ok, []) refl

-- A command is run only for a request with a valid signature and a delivery id, whose body parses,
-- and only from a comment on a pull request that no bot wrote, that says this command, and whose
-- author may give commands.
pub handle_webhook-Commanded :
    (out : Outside) (now : ℕ) (r : Request) (rows : List Delivery) (repo : Text) (pr : ℕ)
    (cmd : BotCommand)
    → CommandOf (handle_webhook out now r rows).1 repo pr cmd
    → (a : Accepted out r rows (handle_webhook out now r rows).1) × Commanded out.slug a.payload
        repo pr cmd
handle_webhook-Commanded out now r rows repo pr cmd m =
    let a =
      handle_webhook-Accepted out now r rows
        (λ e. Memᴰ.not-nil (subst (Memᴰ (run_command repo pr cmd)) e m)) in
    (
      a,
      route-Commanded out.slug (text_or_empty r.event) a.payload repo pr cmd
          (subst (Memᴰ (run_command repo pr cmd)) a.routed m),
    )
