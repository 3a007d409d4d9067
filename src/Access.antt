-- ===== src/Access.antt =====
-- Sign-in and protection of routes (packages/shared/auth.mjs) and the gateway's login.
pub mod Passwords
pub mod Cookies
pub mod SentBack
pub mod Sessions
pub mod History
pub mod Lasting
pub mod Lifetime
pub mod Logout
pub mod Guards
pub mod Admission
pub mod GuardLaws
pub mod Users
pub mod Login
pub mod SignIn
pub mod LoginLaws
pub mod LoginErrors
pub mod State
