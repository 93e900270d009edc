-- ===== src/Installation/Booking.antt =====
-- Bookings: `GetQuoteForUser`, `CreateBooking`, `CancelBooking` and `UpdateBookingStatus`. The time is
-- the argument `now`, a notification that fails is only logged, and the address of the service is
-- its city.
pub mod Once
pub mod Moved
use auto_store_api.Prelude.{
  ⊤, ℕ, pos, Bool, true, false, Option, none, some, List, [], ◌∷◌, Result, ok, err, String,
  if◌then◌else◌, not, ◌==◌, ◌&&◌, ◌||◌, ltb,
}
use auto_store_api.Platform.{Platform}
use auto_store_api.Models.Sales.{Order, OrderItem, PaymentStatus, is_paid, is_unpaid}
use auto_store_api.Models.Installation.{
  Quote, QuoteStatus, QuoteLine, QuoteLineStatus, Booking, BookingStatus, BookingPayment, is_ready,
  is_expired, is_completed, is_cancelled_booking, is_confirmed, is_en_route,
  is_valid_booking_status,
}
use auto_store_api.Models.Paystack.{PaystackConfig}
use auto_store_api.World.{
  Db, M, Error, booking_confirmed, mechanic_en_route, ◌>>=◌, ◌>>◌, pure, raise, query, exec,
  raise_if, on_missing, attempt, ignore, fresh, notify, transaction, lift, skip_if, message,
  scheduled_in_past, quote_not_found, quote_expired, quote_not_ready, quote_line_not_found,
  booking_not_found, booking_not_cancellable, invalid_booking_status_transition,
}
use auto_store_api.Order.{get_order}
use auto_store_api.Payment.Charges.{put_bookings, put_payments}
use auto_store_api.Payment.Refunds.{refund_booking_on_cancel}
use auto_store_api.Installation.Transition.{is_allowed_status_transition}

-- `CreateBookingInput`
pub record CreateBookingInput : Type 0 where
  pub quote_id : ℕ
  pub quote_line_id : ℕ
  pub scheduled_at : ℕ

module _ (p : Platform) where
  abbrev pub put_quotes : p.quotes.Rows → Db p → Db p
  put_quotes t d = record d { quotes = t }

  abbrev pub put_quote_lines : p.quote_lines.Rows → Db p → Db p
  put_quote_lines t d = record d { quote_lines = t }

  -- `ExpireQuotesBefore`
  unfoldable pub expire_quotes_before : ℕ → M p ⊤
  expire_quotes_before t =
      exec p
        (λ d.
          p.quotes.update (λ q. is_ready q.status && ltb q.expires_at t)
            (λ q. record q { status = QuoteStatus.expired }) d.quotes)
        put_quotes

  -- `GetQuoteForUser` after the expiry: the quote and its lines.
  unfoldable pub load_quote : ℕ → ℕ → ℕ → M p (Quote × List (QuoteLine p.Float))
  load_quote now user_id quote_id = do
    quote ←
        on_missing
          (query p (λ d. p.quotes.first (λ q. q.id == quote_id && q.user_id == user_id) d.quotes))
          quote_not_found
    lines ← query p (λ d. p.quote_lines.find (λ l. l.quote_id == quote.id) d.quote_lines)
    _ ← query p (λ d. p.quote_items.find (λ i. i.quote_id == quote.id) d.quote_items)
    raise_if p (is_expired quote.status || ltb quote.expires_at now) quote_expired
    pure (quote, lines)

  -- `GetQuoteForUser`
  unfoldable pub get_quote_for_user : ℕ → ℕ → ℕ → M p (Quote × List (QuoteLine p.Float))
  unfolding expire_quotes_before load_quote
  get_quote_for_user now user_id quote_id = do
    ignore (expire_quotes_before now)
    load_quote now user_id quote_id

  -- The loop for the selected line.
  unfoldable pub find_line : ℕ → List (QuoteLine p.Float) → Result Error (QuoteLine p.Float)
  find_line id [] = err quote_line_not_found
  find_line id (l ∷ ls) = if l.id == id then ok l else find_line id ls

  -- `partsTotal`: the subtotal of the quote's order, if it has one that can be read.
  parts_of : Result Error (Order p.Float × List (OrderItem p.Float)) → p.Float
  parts_of (ok loaded) = (loaded.0).subtotal
  parts_of (err e) = p.of_int (pos 0)

  unfoldable pub parts_total : Option ℕ → M p p.Float
  unfolding parts_of
  parts_total none = pure (p.of_int (pos 0))
  parts_total (some order_id) = do loaded ← attempt (get_order p order_id); pure (parts_of loaded)

  -- The booking that `CreateBooking` makes of a quote and its selected line.
  abbrev pub booking_of : ℕ → ℕ → ℕ → ℕ → Quote → QuoteLine p.Float → ℕ → p.Float → Booking p.Float
  booking_of id user_id profile_id mechanic_user_id quote line scheduled_at parts =
      let fee = p.mul line.labor_price p.tenth in
      record {
        id = id;
        quote_id = quote.id;
        quote_line_id = line.id;
        user_id = user_id;
        mechanic_profile_id = profile_id;
        mechanic_user_id = mechanic_user_id;
        status = BookingStatus.pending_payment;
        scheduled_at = scheduled_at;
        service_city = quote.service_city;
        labor_total = line.labor_price;
        parts_total = parts;
        platform_fee = fee;
        total_amount = p.add (p.add parts line.labor_price) fee;
        payment_status = PaymentStatus.pending;
        cancellation_reason = "";
      }

  abbrev pub payment_of : ℕ → Booking p.Float → BookingPayment p.Float
  payment_of id booking = record {
    id = id;
    booking_id = booking.id;
    provider = "manual";
    payment_intent_id = "";
    paystack_refund_id = "";
    amount = booking.total_amount;
    status = PaymentStatus.pending;
  }

  -- The transaction of `CreateBooking`.
  unfoldable pub store_booking : Booking p.Float → M p ⊤
  store_booking booking = do
    exec p (λ d. p.bookings.create booking d.bookings) (put_bookings p)
    payment_id ← fresh p
    exec p (λ d. p.payments.create (payment_of payment_id booking) d.payments) (put_payments p)
    exec p
        (λ d.
          p.quotes.update (λ q. q.id == booking.quote_id)
            (λ q. record q { status = QuoteStatus.booked }) d.quotes)
        put_quotes
    exec p
        (λ d.
          p.quote_lines.update (λ l. l.quote_id == booking.quote_id)
            (λ l. record l { status = QuoteLineStatus.declined }) d.quote_lines)
        put_quote_lines
    exec p
        (λ d.
          p.quote_lines.update (λ l. l.id == booking.quote_line_id)
            (λ l. record l { status = QuoteLineStatus.selected }) d.quote_lines)
        put_quote_lines
    pure tt

  -- `CreateBooking` after the expiry.
  unfoldable pub book_quote : ℕ → ℕ → CreateBookingInput → M p (Booking p.Float)
  unfolding get_quote_for_user find_line parts_total store_booking
  book_quote now user_id input = do
    quote ← get_quote_for_user now user_id input.quote_id
    raise_if p (not (is_ready quote.0.status)) quote_not_ready
    count ← query p (λ d. p.bookings.count (λ b. b.quote_id == quote.0.id) d.bookings)
    raise_if p (ltb 0 count) (message "booking already exists for this quote")
    line ← lift p (find_line input.quote_line_id quote.1)
    profile ← query p (λ d. p.profiles.get line.mechanic_profile_id d.profiles)
    parts ← parts_total quote.0.order_id
    id ← fresh p
    let booking =
        booking_of id user_id profile.id profile.user_id quote.0 line input.scheduled_at parts
    _ ← transaction (store_booking booking)
    loaded ← query p (λ d. p.bookings.get id d.bookings)
    notify p (booking_confirmed user_id id)
    notify p (booking_confirmed profile.user_id id)
    pure loaded

  -- `CreateBooking`
  unfoldable pub create_booking : ℕ → ℕ → CreateBookingInput → M p (Booking p.Float)
  unfolding book_quote
  create_booking now user_id input = do
    raise_if p (ltb input.scheduled_at now) scheduled_in_past
    ignore (expire_quotes_before now)
    book_quote now user_id input

  -- The refund in `CancelBooking`, and the booking that it goes on with.
  after_refund : Result Error ⊤ → Booking p.Float → M p (Booking p.Float)
  after_refund (ok _) booking = query p (λ d. p.bookings.get booking.id d.bookings)
  after_refund (err Error.payment_not_refundable) booking = pure booking
  after_refund (err e) booking = raise e

  refund_if_paid : Bool → PaystackConfig → Booking p.Float → String → M p (Booking p.Float)
  refund_if_paid false cfg booking reason = pure booking
  refund_if_paid true cfg booking reason = do
    refund ← attempt (refund_booking_on_cancel p cfg booking reason)
    after_refund refund booking

  abbrev pub cancelled_booking : Booking p.Float → String → Booking p.Float
  cancelled_booking booking reason = record booking {
    status = BookingStatus.cancelled;
    cancellation_reason = reason;
    payment_status =
        if is_paid booking.payment_status then PaymentStatus.refunded else booking.payment_status;
  }

  -- `CancelBooking`, with the payment service that the program gives it.
  unfoldable pub cancel_booking : PaystackConfig → ℕ → ℕ → String → M p (Booking p.Float)
  unfolding after_refund refund_if_paid
  cancel_booking cfg user_id booking_id reason = do
    found ←
        on_missing
          (query p
            (λ d. p.bookings.first (λ b. b.id == booking_id && b.user_id == user_id) d.bookings))
          booking_not_found
    raise_if p (is_completed found.status || is_cancelled_booking found.status)
        booking_not_cancellable
    booking ← refund_if_paid (is_paid found.payment_status) cfg found reason
    _ ← skip_if p (not (is_paid booking.payment_status)) (
        ignore (
          exec p
            (λ d.
              p.payments.update (λ r. r.booking_id == booking_id)
                (λ r. record r { status = PaymentStatus.refunded }) d.payments)
            (put_payments p)))
    exec p (λ d. p.bookings.save (cancelled_booking booking reason) d.bookings) (put_bookings p)
    pure (cancelled_booking booking reason)

  -- The booking that `UpdateBookingStatus` saves.
  abbrev pub moved_booking : Booking p.Float → BookingStatus → Booking p.Float
  moved_booking booking status = record booking {
    status = status;
    payment_status =
        if is_confirmed status && is_unpaid booking.payment_status
        then PaymentStatus.paid
        else booking.payment_status;
  }

  -- `UpdateBookingStatus`
  unfoldable pub update_booking_status : ℕ → ℕ → BookingStatus → M p (Booking p.Float)
  update_booking_status mechanic_user_id booking_id status = do
    raise_if p (not (is_valid_booking_status status)) invalid_booking_status_transition
    booking ←
        on_missing
          (query p (λ d.
            p.bookings.first (λ b. b.id == booking_id && b.mechanic_user_id == mechanic_user_id)
              d.bookings))
          booking_not_found
    raise_if p (not (is_allowed_status_transition booking.status status))
        invalid_booking_status_transition
    exec p (λ d. p.bookings.save (moved_booking booking status) d.bookings) (put_bookings p)
    _ ←
        skip_if p (not (is_en_route status && not (is_en_route booking.status)))
          (notify p (mechanic_en_route booking.user_id booking.id))
    pure (moved_booking booking status)
