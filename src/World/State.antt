-- ===== src/World/State.antt =====
-- The rows of the database, and what the process has done outside of it.
use auto_store_api.Prelude.{ℕ, ℤ, List}
use auto_store_api.Platform.{Platform}
use auto_store_api.Models.Paystack.{RefundBody}
use auto_store_api.Platform.Sql.{Table}
use auto_store_api.Platform.Keys.{Redis}

pub record Db (p : Platform) : Type 0 where
  pub products : Table.Rows p.products
  pub movements : Table.Rows p.movements
  pub carts : Table.Rows p.carts
  pub addresses : Table.Rows p.addresses
  pub orders : Table.Rows p.orders
  pub order_items : Table.Rows p.order_items
  pub users : Table.Rows p.users
  pub profiles : Table.Rows p.profiles
  pub job_types : Table.Rows p.job_types
  pub services : Table.Rows p.services
  pub quotes : Table.Rows p.quotes
  pub quote_items : Table.Rows p.quote_items
  pub quote_lines : Table.Rows p.quote_lines
  pub bookings : Table.Rows p.bookings
  pub payments : Table.Rows p.payments
  pub categories : Table.Rows p.categories
  pub questions : Table.Rows p.questions
  pub answers : Table.Rows p.answers
  pub conversations : Table.Rows p.conversations
  pub messages : Table.Rows p.messages
  pub notifications : Table.Rows p.notifications
  pub preferences : Table.Rows p.preferences

-- A notification that a service hands to its notifier.
pub data Notice : Type 0 where
  -- A product and its alert cycle.
  low_stock : ℕ → ℤ → Notice
  -- A user, and a quote or a booking.
  quote_ready booking_confirmed mechanic_en_route : ℕ → ℕ → Notice
  -- The author of a question, and the question.
  qa_answer_posted : ℕ → ℕ → Notice
  -- A conversation and the message of the reply, and an administrator and a conversation.
  support_admin_replied support_new_conversation : ℕ → ℕ → Notice

-- `published` is the log of the messages handed to the hub, newest first, `mailed` counts the e-mails,
-- `store` is what Redis has. `drawn` counts the uuids that were generated, `begun` the transactions and `called` the calls of
-- Paystack; `notices` and `refunds`, the refunds that Paystack was asked for, are logs, newest first.
pub record World (p : Platform) : Type 0 where
  pub db : Db p
  pub drawn : ℕ
  pub begun : ℕ
  pub notices : List Notice
  pub called : ℕ
  pub refunds : List RefundBody
  pub published : List ℕ
  pub mailed : ℕ
  pub store : Redis.Store p.redis
