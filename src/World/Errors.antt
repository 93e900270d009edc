-- ===== src/World/Errors.antt =====
-- The errors that the services return: the sentinel values of internal/services, `message` for an
-- `errors.New` at the place of the failure, and `db` for an error of the database that is passed on.
use auto_store_api.Prelude.{String}
use auto_store_api.Platform.Sql.{DbError}

pub data Error : Type 0 where
  -- inventory_service.go, cart_service.go, order_service.go
  inventory_product_not_found inventory_access_denied invalid_stock_delta out_of_stock : Error
  product_not_found insufficient_stock empty_cart address_not_found order_not_found : Error
  -- payment_service.go, payment_refund.go, mechanic_payout_service.go
  paystack_not_configured payment_not_pending payment_invalid_amount : Error
  payment_reference_unknown booking_split_invalid payment_not_refundable : Error
  refund_already_initiated mechanic_payout_not_configured : Error
  -- installation_service.go
  job_type_not_found quote_not_found quote_expired quote_not_ready quote_line_not_found : Error
  no_mechanics_in_area booking_not_found booking_not_cancellable : Error
  invalid_booking_status_transition no_installable_products : Error
  order_not_found_for_install order_not_owned quote_line_not_for_mechanic : Error
  scheduled_in_past : Error
  -- mechanic_service.go
  mechanic_profile_not_found : Error
  -- question_service.go
  question_not_found answer_not_found question_closed not_question_author : Error
  invalid_question_context category_not_found already_answered_by_user : Error
  -- chat_service.go
  conversation_not_found conversation_forbidden conversation_closed : Error
  guest_session_rate_limit message_rate_limit invalid_message_body : Error
  invalid_guest_email invalid_guest_token : Error
  -- notification_service.go
  notification_not_found : Error
  -- auth_service.go and pkg/auth/jwt.go
  invalid_credentials email_exists account_locked invalid_token : Error
  message : String → Error
  db : DbError → Error
  -- An error of the Paystack client.
  gateway : String → Error
  -- An error of Redis, of bcrypt, of the signing of a token, or of the e-mail's sender.
  service : String → Error
