-- ===== src/Http.antt =====
-- The limits of the HTTP layer and the client of other
-- services: packages/shared/http.mjs, packages/shared/auth.mjs and packages/shared/service-client.mjs.
pub mod Limits
pub mod Client
pub mod Routing
pub mod Serve
pub mod Gates
pub mod Bodies
pub mod Tenants
pub mod Entry
