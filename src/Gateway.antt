-- ===== src/Gateway.antt =====
-- services/gateway: the cookies, the sessions, the errors and the routes of the HTTP front.
pub mod Cookies
pub mod Tokens
pub mod Sessions
pub mod Errors
pub mod Routes
pub mod Router
pub mod Channel
