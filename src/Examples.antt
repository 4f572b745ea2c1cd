-- ===== src/Examples.antt =====
-- Small instances of what the models take as parameters, and runs of the models on them.
pub mod Toys
pub mod Tokens
pub mod Accounts
pub mod Resending
pub mod Events
pub mod Sessions
pub mod ClaimTexts
pub mod Journeys
pub mod Keks
pub mod Passwords
pub mod Gateway
pub mod Serving
pub mod Channel
pub mod Proxying
pub mod Routing
