-- ===== src/Webhook/Replays.antt =====
-- src/bot/mod.rs and src/bot/maintenance.rs: a delivery that is repeated.
use codasaurus.Webhook.{BotConfig, WebhookPayload, text_or_empty, verify_signature}
use codasaurus.Webhook.Handler.{
  Delivery, Request, Outside, is_delivery, fourteen_days, is_duplicate_delivery,
  run_periodic_cleanup, effective, after_parse, after_delivery, with_config, handle_webhook,
}
use codasaurus.Prelude.{
  ℕ, ◌+◌, ◌≤◌, Text, text_eq_refl, is_empty_text, List, [], ◌∷◌, ◌++◌, Option, none, some, Bool,
  true, false, not, ◌&&◌, ltb, leb, Bool-cases, retain, any, All, All_mono, any-append, ◌≡◌, refl,
  ◌≢◌, inl, inr, arith,
}

abbrev pub id_of : Request → Text
id_of r = text_or_empty r.delivery_id

-- A request arrives, with what is outside then, or an idle worker cleans the tables up.
pub data Event : Type 0 where
  arrival : Outside → ℕ → Request → Event
  cleanup : ℕ → Event

abbrev pub time_of : Event → ℕ
time_of (arrival out now r) = now
time_of (cleanup now) = now

unfoldable pub deliveries_after : List Event → List Delivery → List Delivery
deliveries_after [] rows = rows
deliveries_after (arrival out now r ∷ es) rows =
    deliveries_after es (handle_webhook out now r rows).2
deliveries_after (cleanup now ∷ es) rows = deliveries_after es (run_periodic_cleanup now rows)

-- The id stands in the table, received at the time or later.
abbrev Recorded : Text → ℕ → List Delivery → Type 0
Recorded id t rows = any (λ d. is_delivery id d && leb t d.received_at) rows ≡ true

record_kept :
    (id : Text) (t now : ℕ) (rows : List Delivery)
    → now ≤ t + fourteen_days
    → Recorded id t rows
    → Recorded id t (retain (λ d. not (ltb (d.received_at + fourteen_days) now)) rows)
record_kept id t now [] h k = k
record_kept id t now (d ∷ rows) h k = elim (Bool-cases (is_delivery id d && leb t d.received_at)) [
  | inl e ↦
      let young : ltb (d.received_at + fourteen_days) now ≡ false = ground arith in rw (young, e)
  | inr e ↦
      let later = record_kept id t now rows h (rw e at k) in
      elim (Bool-cases (ltb (d.received_at + fourteen_days) now)) [
        | inl old ↦ rw old later
        | inr young ↦ rw (young, e) later
      ]
]

Recorded-snoc :
    (id : Text) (t : ℕ) (rows : List Delivery) (d : Delivery)
    → Recorded id t rows
    → Recorded id t (rows ++ d ∷ [])
Recorded-snoc id t rows d k =
    rw (any-append (λ d. is_delivery id d && leb t d.received_at) rows (d ∷ []), k)

module _ (id : Text) (t : ℕ) where
  duplicate-Recorded :
      (recording : Bool) (now : ℕ) (other : Text) (rows : List Delivery)
      → now ≤ t + fourteen_days
      → Recorded id t rows
      → Recorded id t (is_duplicate_delivery recording now other rows).1
  unfolding is_duplicate_delivery
  duplicate-Recorded recording now other rows h k = elim (Bool-cases recording) [
    | inl e ↦ elim (Bool-cases (any (is_delivery other) rows)) [
      | inl q ↦ rw (e, q) k
      | inr q ↦ rw (e, q) (record_kept id t now _ h (Recorded-snoc id t rows _ k))
    ]
    | inr e ↦ rw e k
  ]

  handle_webhook-Recorded :
      (out : Outside) (now : ℕ) (r : Request) (rows : List Delivery)
      → now ≤ t + fourteen_days
      → Recorded id t rows
      → Recorded id t (handle_webhook out now r rows).2
  unfolding handle_webhook
  handle_webhook-Recorded out now r rows h k = configured (effective out.current out.reloaded)
    where
      parsed :
          (o : Option WebhookPayload) (ds : List Delivery)
          → Recorded id t ds
          → Recorded id t (after_parse out r o ds).2
      parsed none ds m = m
      parsed (some p) ds m = m

      delivered :
          (d : Bool × List Delivery) → Recorded id t d.1 → Recorded id t (after_delivery out r d).2
      delivered (true, ds) m = m
      delivered (false, ds) m = parsed (out.from_json r.body) ds m

      configured : (c : Option BotConfig) → Recorded id t (with_config out now r rows c).2
      configured none = k
      configured (some c) =
          elim (Bool-cases
            (verify_signature out.hmac_hex c.webhook_secret r.body (text_or_empty r.signature))) [
              | inr e ↦ rw e k
              | inl e ↦ elim (Bool-cases (is_empty_text (id_of r))) [
                | inl q ↦ rw (e, q) k
                | inr q ↦
                    rw (e, q)
                      (delivered (is_duplicate_delivery out.recording now (id_of r) rows)
                        (duplicate-Recorded out.recording now (id_of r) rows h k))
              ]
            ]

  deliveries_after-Recorded :
      (es : List Event) (rows : List Delivery)
      → All (λ e. time_of e ≤ t + fourteen_days) es
      → Recorded id t rows
      → Recorded id t (deliveries_after es rows)
  unfolding deliveries_after run_periodic_cleanup
  deliveries_after-Recorded [] rows h k = k
  deliveries_after-Recorded (arrival out now r ∷ es) rows h k =
      deliveries_after-Recorded es _ h.1 (handle_webhook-Recorded out now r rows h.0 k)
  deliveries_after-Recorded (cleanup now ∷ es) rows h k =
      deliveries_after-Recorded es _ h.1 (record_kept id t now rows h.0 k)

  -- A recorded id starts nothing.
  Recorded-idle :
      (out : Outside) (now : ℕ) (r : Request) (rows : List Delivery)
      → out.recording ≡ true
      → id_of r ≡ id
      → Recorded id t rows
      → (handle_webhook out now r rows).1 ≡ []
  unfolding handle_webhook is_duplicate_delivery
  Recorded-idle out now r rows on same k = configured (effective out.current out.reloaded)
    where
      present : (ds : List Delivery) → Recorded id t ds → any (is_delivery id) ds ≡ true
      present [] m = m
      present (d ∷ ds) m = elim (Bool-cases (is_delivery id d)) [
        | inl e ↦ rw e
        | inr e ↦ rw e (present ds (rw e at m))
      ]

      configured : (c : Option BotConfig) → (with_config out now r rows c).1 ≡ []
      configured none = refl
      configured (some c) =
          elim (Bool-cases
            (verify_signature out.hmac_hex c.webhook_secret r.body (text_or_empty r.signature))) [
              | inr e ↦ rw e
              | inl e ↦ elim (Bool-cases (is_empty_text (id_of r))) [
                | inl q ↦ rw (e, q)
                | inr q ↦
                    let here : any (is_delivery (id_of r)) rows ≡ true = rw same (present rows k) in
                    rw (e, q, on, here)
              ]
            ]

-- A delivery that started something is on record.
started-Recorded :
    (out : Outside) (now : ℕ) (r : Request) (rows : List Delivery)
    → out.recording ≡ true
    → (handle_webhook out now r rows).1 ≢ []
    → Recorded (id_of r) now (handle_webhook out now r rows).2
unfolding handle_webhook is_duplicate_delivery
started-Recorded out now r rows on = configured (effective out.current out.reloaded)
  where
    fresh : List Delivery
    fresh =
        retain (λ d. not (ltb (d.received_at + fourteen_days) now))
          (rows ++ record { delivery_id = id_of r; received_at = now } ∷ [])

    stored : Recorded (id_of r) now fresh
    stored = record_kept (id_of r) now now _ (omega arith) (
        rw (any-append (λ d. is_delivery (id_of r) d && leb now d.received_at) rows _) (
          let me = text_eq_refl (id_of r) in
          let now' : leb now now ≡ true = ground arith in rw (me, now') (ground arith)))

    parsed : (o : Option WebhookPayload) → Recorded (id_of r) now (after_parse out r o fresh).2
    parsed none = stored
    parsed (some p) = stored

    configured :
        (c : Option BotConfig)
        → (with_config out now r rows c).1 ≢ []
        → Recorded (id_of r) now (with_config out now r rows c).2
    configured none = λ h. absurd (h refl)
    configured (some c) =
        elim (Bool-cases
          (verify_signature out.hmac_hex c.webhook_secret r.body (text_or_empty r.signature))) [
            | inr e ↦ rw e (λ h. absurd (h refl))
            | inl e ↦ elim (Bool-cases (is_empty_text (id_of r))) [
              | inl q ↦ rw (e, q) (λ h. absurd (h refl))
              | inr q ↦ elim (Bool-cases (any (is_delivery (id_of r)) rows)) [
                | inl seen ↦ rw (e, q, on, seen) (λ h. absurd (h refl))
                | inr new ↦ rw (e, q, on, new) (λ h. parsed (out.from_json r.body))
              ]
            ]
          ]

-- A delivery that started something starts nothing when it is repeated within 14 days, whatever
-- arrives in between and whenever the tables are cleaned up in between, provided that both times the
-- database records deliveries. Later than that its record may be gone.
pub handle_webhook-once :
    (out : Outside) (now : ℕ) (r : Request) (rows : List Delivery) (between : List Event)
    (out' : Outside) (later : ℕ) (r' : Request)
    → out.recording ≡ true
    → (handle_webhook out now r rows).1 ≢ []
    → All (λ e. time_of e ≤ later) between
    → later ≤ now + fourteen_days
    → out'.recording ≡ true
    → id_of r' ≡ id_of r
    → (handle_webhook out' later r' (deliveries_after between (handle_webhook out now r rows).2)).1
      ≡ []
handle_webhook-once out now r rows between out' later r' on started before early on' same =
    Recorded-idle (id_of r) now out' later r' _ on' same (
      deliveries_after-Recorded (id_of r) now between _
        (All_mono (λ e h. omega (arith, h, early)) between before)
        (started-Recorded out now r rows on started))
