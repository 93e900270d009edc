-- ===== src/Payment.antt =====
-- Payments with Paystack: internal/services/payment_service.go and payment_refund.go, with
-- pkg/paystack/client.go.
pub mod Money
pub mod Client
pub mod Charges
pub mod Initialize
pub mod Refunds
pub mod Webhook
