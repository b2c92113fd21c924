-- ===== src/Cloudflare.antt =====
-- internal/cloudflare: the clients of Cloudflare's APIs. The service is a parameter.
pub mod Logpull
pub mod Graphql
