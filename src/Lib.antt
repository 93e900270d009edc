-- ===== src/Lib.antt =====
-- The services of the shop's backend: accounts, products and their stock, orders, payments with
-- Paystack, installation bookings, questions, notifications and the support chat.
--
-- How the program is laid out, and which file models what:
-- - Models: the rows of the database, of internal/models, and the messages of pkg/paystack. A uuid is
--   a number (`uuid.Nil` is 0), a time a number of ticks, a nullable column an `Option`, an enum a data
--   type. `int` and `int64` are integers with the wrap-around of 64 bits written out (Prelude/Int),
--   and `float64` is a type of the platform.
-- - Platform: what the program runs on, as a parameter: the tables behind gorm, each call of which may
--   fail (Platform/Sql has the documented effect of a call that does not), the commit of a transaction,
--   `float64`, the uuid generator, the functions on texts (Platform/Text), Redis (Platform/Keys), JSON,
--   HMAC, bcrypt, the signing of tokens, e-mail and the answers of Paystack. Memory has one such
--   platform, which can be run.
-- - World: the state that the services share (the database, and what was drawn, sent and asked), their
--   errors, and the monad of their methods, in which a failed call keeps what was written before
--   it and only a transaction takes its writes back. World/Triples, Reads, Calls, Steps, Runs and
--   Failures have the rules that follow a method's steps to its results and to its failures, and
--   Keeping those for what a method leaves alone however it ends.
-- - Inventory: internal/services/inventory_service.go, `AdjustStock` with the low-stock alerts, and
--   Settings (`UpdateSettings`, `ScanLowStock`, access to a product). An alert is the entry of a log,
--   since the goroutine that sends it is not ordered with the transaction.
-- - Order: internal/services/order_service.go, `Create`, `Cancel` and `UpdateStatus`, which adjust the
--   stock through Inventory. The loading of products and addresses with an order is left out.
-- - Cart: internal/services/cart_service.go, on the same tables as Order.
-- - Payment: internal/services/payment_service.go and payment_refund.go with pkg/paystack/client.go:
--   Money (amounts), Client (the API), Initialize (the start of a payment and its
--   split), Charges (payments that were made), Refunds, Webhook. A call of
--   Paystack is counted, and the body of a refund is logged also when it fails.
-- - Installation: internal/services/installation_service.go: Transition and Lifecycle (the statuses of a
--   booking), Booking (`GetQuoteForUser`, `CreateBooking`, `CancelBooking`, `UpdateBookingStatus`).
-- - Auth: internal/services/auth_service.go and pkg/auth/jwt.go: registration, login with the counter
--   in Redis that locks an account, tokens, passwords. What stands at a key of Redis is a counter or a
--   text; keys do not expire within a method.
-- - Middleware: internal/middleware/auth.go, as functions from the context of a request to the next
--   context or to a status.
-- - Questions: internal/services/question_service.go with `Slugify`. The loop that trims dashes runs on
--   as much fuel as the text has bytes, and each round takes one off; that for a slug has ten rounds, as
--   in the source.
-- - Notifications: internal/services/notification_service.go, with Notifier for notifier.go. The other
--   services hand their notices to a log (World/State), in the order in which they call the notifier.
-- - Chat: Hub for internal/chat/hub.go (each critical section is one step; a channel is a list with a
--   capacity, and a send on a closed channel is `none`), Identity and Service for
--   internal/services/chat_service.go. What the service hands to the hub is a log.
-- - Mechanics: internal/services/mechanic_service.go, `setAdminStatus` with `Suspend`, `Reject` and the change
--   that `Verify` makes, but not the notice and the install services that `Verify` then adds.
-- - Tests: the services run on a shop in memory.
--
-- Every other loop is over a list and is a recursion on it. What a method does is stated of its end, with
-- the errors as values; a platform may let any call fail. Calls are run one after the other: what
-- two requests do to the same rows at the same time is not modelled, except in the hub.
--
-- Not modelled: HTTP handlers and routing, the sockets and their pumps, mechanics' applications and payouts,
-- products, reviews, wishlists, categories, vehicles, the listing of pages, the making of quotes, the
-- payloads of notifications, and logging.
pub mod Prelude
pub mod Models
pub mod Platform
pub mod World
pub mod Inventory
pub mod Order
pub mod Cart
pub mod Payment
pub mod Installation
pub mod Chat
pub mod Questions
pub mod Notifications
pub mod Auth
pub mod Middleware
pub mod Mechanics
pub mod Memory
pub mod Tests
