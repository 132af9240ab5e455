-- ===== src/Service.antt =====
-- app/internal/service/*.go: what the program does for its callers, over the repositories.
pub mod Availability
pub mod Cache
pub mod Bookings
pub mod Generation
pub mod Lanes
pub mod Generator
pub mod Users
pub mod Auth
pub mod Integrity
pub mod Keeping
pub mod Timetable
