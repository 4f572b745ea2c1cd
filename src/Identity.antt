-- ===== src/Identity.antt =====
-- The identity service (services/identity/src).
pub mod Validation
pub mod Accounts
pub mod Tables
pub mod Service
pub mod SignUp
pub mod VerifyEmail
pub mod ResendVerification
pub mod UpdateProfile
pub mod UpdatePassword
pub mod SigningKeys
pub mod Auth
pub mod Login
pub mod Consistency
pub mod Grpc
