-- ===== src/Repository.antt =====
-- app/internal/repository/*.go: each operation builds one SQL statement (two for the list of all
-- bookings) and runs it. A statement is modelled by what it reads and writes in the tables.
pub mod Sql
pub mod Bookings
pub mod Slots
pub mod Lanes
pub mod Schedules
pub mod Users
pub mod Integrity
pub mod Keeping
