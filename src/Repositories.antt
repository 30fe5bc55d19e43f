-- ===== src/Repositories.antt =====
-- app/storage/repositories: thin queries over one session.
pub mod Drivers
pub mod Rides
pub mod Riders
