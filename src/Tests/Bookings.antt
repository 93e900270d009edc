-- ===== src/Tests/Bookings.antt =====
-- The life of a booking.
use auto_store_api.Prelude.{ℤ, pos, ok, ◌≢◌, ◌+ℤ◌, ◌≡◌, refl, List, [], ◌∷◌, true, ◌⊎◌, ◌↔◌, Has}
use auto_store_api.Models.Sales.{PaymentStatus}
use auto_store_api.Models.Installation.{Booking, BookingStatus, is_valid_booking_status}
use auto_store_api.World.{
  World, ◌>>=◌, ◌>>◌, pure, or_raise, on_missing, attempt, ignore, transaction, query, exec,
  raise_if, fresh, notify, lift, skip_if,
}
use auto_store_api.Installation.Booking.{CreateBookingInput, create_booking, update_booking_status}
use auto_store_api.Installation.Booking.Once.{create_booking_once}
use auto_store_api.Installation.Booking.Moved.{Moved, update_booking_status-Moved}
use auto_store_api.Memory.{memory_platform}
use auto_store_api.Tests.Shop.{garage, paid_visit}
use auto_store_api.Installation.Transition.{is_allowed_status_transition}
use auto_store_api.Installation.Lifecycle.{
  Step, is_allowed_status_transition-Step, completed_after_work,
}

abbrev visit : List BookingStatus
visit =
    BookingStatus.confirmed ∷ BookingStatus.confirmed ∷ BookingStatus.en_route
    ∷ BookingStatus.in_progress ∷ BookingStatus.completed ∷ []

is_allowed_status_transition-Step_example :
    (is_allowed_status_transition BookingStatus.confirmed BookingStatus.in_progress ≡ true) ↔ (
      (BookingStatus.confirmed ≡ BookingStatus.in_progress)
      ⊎ Step BookingStatus.confirmed BookingStatus.in_progress)
is_allowed_status_transition-Step_example =
    is_allowed_status_transition-Step BookingStatus.confirmed BookingStatus.in_progress

completed_after_work_example :
    Has BookingStatus.confirmed visit × Has BookingStatus.in_progress visit
unfolding is_allowed_status_transition
completed_after_work_example = completed_after_work visit refl refl

abbrev request : CreateBookingInput
request = record { quote_id = 70; quote_line_id = 71; scheduled_at = 60 }

abbrev later_request : CreateBookingInput
later_request = record { quote_id = 70; quote_line_id = 71; scheduled_at = 65 }

abbrev after_booking : World memory_platform
after_booking = (create_booking memory_platform 10 7 request garage).1

abbrev made : Booking ℤ
made = record paid_visit {
  id = 100;
  quote_id = 70;
  quote_line_id = 71;
  status = BookingStatus.pending_payment;
  scheduled_at = 60;
  labor_total = pos 50;
  parts_total = pos 0;
  platform_fee = pos 0;
  total_amount = pos 50;
  payment_status = PaymentStatus.pending;
}

booking-run : create_booking memory_platform 10 7 request garage ≡ (ok made, after_booking)
unfolding create_booking ◌>>=◌ ◌>>◌ pure or_raise on_missing attempt ignore transaction query exec
    raise_if fresh notify lift ◌+ℤ◌
booking-run = refl

create_booking_once_example :
    (create_booking memory_platform 20 8 later_request after_booking).0 ≢ ok made
create_booking_once_example =
    create_booking_once memory_platform 10 20 7 8 request later_request garage after_booking made
      refl booking-run made

abbrev after_move : World memory_platform
after_move = (update_booking_status memory_platform 9 80 BookingStatus.en_route garage).1

move-run :
    update_booking_status memory_platform 9 80 BookingStatus.en_route garage
    ≡ (ok (record paid_visit { status = BookingStatus.en_route }), after_move)
unfolding update_booking_status ◌>>=◌ ◌>>◌ pure on_missing query exec raise_if notify skip_if
    is_valid_booking_status is_allowed_status_transition
move-run = refl

update_booking_status-Moved_example :
    Moved memory_platform 9 80 BookingStatus.en_route
      (record paid_visit { status = BookingStatus.en_route })
      garage
      after_move
update_booking_status-Moved_example =
    update_booking_status-Moved memory_platform 9 80 BookingStatus.en_route garage after_move
      (record paid_visit { status = BookingStatus.en_route }) move-run
