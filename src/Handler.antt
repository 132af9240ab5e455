-- ===== src/Handler.antt =====
-- app/internal/handler: requests and responses of the HTTP interface.
pub mod Api
pub mod Middleware
pub mod Context
pub mod Bookings
pub mod Auth
pub mod Lanes
