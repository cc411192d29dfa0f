-- ===== src/Webhook/Accepting.antt =====
-- src/bot/mod.rs: what a request must have to start anything.

use codasaurus.Webhook.{BotConfig, WebhookPayload, text_or_empty, verify_signature}
use codasaurus.Webhook.Handler.{
  Delivery, Request, Outside, Task, Handled, route, is_duplicate_delivery, effective, after_parse,
  after_delivery, with_config, handle_webhook,
}
use codasaurus.Prelude.{
  ℕ, is_empty_text, List, [], Option, none, some, Bool, true, false, Bool-cases, ◌≡◌, refl, ◌≢◌,
  inl, inr,
}

-- What must hold for a request to start anything.
pub record Accepted (out : Outside) (r : Request) (rows : List Delivery) (tasks : List Task)
    : Type 0 where
  pub config : BotConfig
  pub configured : effective out.current out.reloaded ≡ some config
  pub signed :
      verify_signature out.hmac_hex config.webhook_secret r.body (text_or_empty r.signature) ≡ true
  pub named : is_empty_text (text_or_empty r.delivery_id) ≡ false
  pub payload : WebhookPayload
  pub parsed : out.from_json r.body ≡ some payload
  pub routed : tasks ≡ (route out.slug (text_or_empty r.event) payload).1

pub handle_webhook-Accepted :
    (out : Outside) (now : ℕ) (r : Request) (rows : List Delivery)
    → (handle_webhook out now r rows).1 ≢ []
    → Accepted out r rows (handle_webhook out now r rows).1
unfolding handle_webhook
handle_webhook-Accepted out now r rows = configured (effective out.current out.reloaded) refl
  where
    Result : Handled → Type 0
    Result h = h.1 ≢ [] → Accepted out r rows h.1

    parsed :
        (c : BotConfig)
        → effective out.current out.reloaded ≡ some c
        → verify_signature out.hmac_hex c.webhook_secret r.body (text_or_empty r.signature) ≡ true
        → is_empty_text (text_or_empty r.delivery_id) ≡ false
        → (o : Option WebhookPayload) (ds : List Delivery) → out.from_json r.body ≡ o
        → Result (after_parse out r o ds)
    parsed c k e q none ds p = λ h. absurd (h refl)
    parsed c k e q (some payload) ds p = λ h. record {
      config = c;
      configured = k;
      signed = e;
      named = q;
      payload = payload;
      parsed = p;
      routed = refl;
    }

    delivered :
        (c : BotConfig)
        → effective out.current out.reloaded ≡ some c
        → verify_signature out.hmac_hex c.webhook_secret r.body (text_or_empty r.signature) ≡ true
        → is_empty_text (text_or_empty r.delivery_id) ≡ false
        → (d : Bool × List Delivery) → Result (after_delivery out r d)
    delivered c k e q (true, ds) = λ h. absurd (h refl)
    delivered c k e q (false, ds) = parsed c k e q (out.from_json r.body) ds refl

    configured :
        (o : Option BotConfig)
        → effective out.current out.reloaded ≡ o
        → Result (with_config out now r rows o)
    configured none k = λ h. absurd (h refl)
    configured (some c) k =
        elim (Bool-cases
          (verify_signature out.hmac_hex c.webhook_secret r.body (text_or_empty r.signature))) [
            | inr e ↦ rw e (λ h. absurd (h refl))
            | inl e ↦ elim (Bool-cases (is_empty_text (text_or_empty r.delivery_id))) [
              | inl q ↦ rw (e, q) (λ h. absurd (h refl))
              | inr q ↦
                  rw (e, q)
                    (delivered c k e q
                      (is_duplicate_delivery out.recording now (text_or_empty r.delivery_id) rows))
            ]
          ]
