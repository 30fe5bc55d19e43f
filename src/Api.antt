-- ===== src/Api.antt =====
-- app/api and the exception handlers of app/main.py.
pub mod Errors
pub mod Rides
pub mod Drivers
pub mod Stats
pub mod Schemas
pub mod Routing
pub mod DriverRows
pub mod ReadBack
pub mod Quotes
pub mod App
pub mod Health
