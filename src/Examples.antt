-- ===== src/Examples.antt =====
-- Runs at concrete inputs.
pub mod Fixtures
pub mod Unary
pub mod Streams
pub mod Race
pub mod Carriers
pub mod Options
pub mod Servers
pub mod Lives
pub mod Greetings
pub mod Sessions
pub mod Calls
pub mod Wire
pub mod Clients
pub mod Handlers
