-- ===== src/Installation.antt =====
-- Installation quotes and bookings: internal/services/installation_service.go, with
-- internal/repositories/installation_repository.go.
pub mod Transition
pub mod Booking
pub mod Lifecycle
