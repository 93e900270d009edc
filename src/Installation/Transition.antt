-- ===== src/Installation/Transition.antt =====
-- Which status a booking may have next: `isAllowedStatusTransition`.
use auto_store_api.Prelude.{Bool, true, false, List, [], ◌∷◌, str_eq, ◌||◌}
use auto_store_api.Models.Installation.{BookingStatus}

-- `==` on the texts of two statuses.
unfoldable pub same_status : BookingStatus → BookingStatus → Bool
same_status BookingStatus.pending_payment BookingStatus.pending_payment = true
same_status BookingStatus.confirmed BookingStatus.confirmed = true
same_status BookingStatus.en_route BookingStatus.en_route = true
same_status BookingStatus.in_progress BookingStatus.in_progress = true
same_status BookingStatus.completed BookingStatus.completed = true
same_status BookingStatus.cancelled BookingStatus.cancelled = true
same_status (BookingStatus.other a) (BookingStatus.other b) = str_eq a b
same_status _ _ = false

-- The map `allowed`.
unfoldable pub allowed_next : BookingStatus → List BookingStatus
allowed_next BookingStatus.pending_payment = BookingStatus.confirmed ∷ BookingStatus.cancelled ∷ []
allowed_next BookingStatus.confirmed =
    BookingStatus.en_route ∷ BookingStatus.in_progress ∷ BookingStatus.cancelled ∷ []
allowed_next BookingStatus.en_route = BookingStatus.in_progress ∷ BookingStatus.cancelled ∷ []
allowed_next BookingStatus.in_progress = BookingStatus.completed ∷ BookingStatus.cancelled ∷ []
allowed_next _ = []

-- The loop over the entries.
unfoldable pub has_status : BookingStatus → List BookingStatus → Bool
unfolding same_status
has_status to [] = false
has_status to (next ∷ rest) = same_status next to || has_status to rest

-- `isAllowedStatusTransition`
unfoldable pub is_allowed_status_transition : BookingStatus → BookingStatus → Bool
unfolding same_status allowed_next has_status
is_allowed_status_transition from to = same_status from to || has_status to (allowed_next from)
