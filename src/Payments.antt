-- ===== src/Payments.antt =====
-- src/runtime/payments.
pub mod WebhookIdempotency
