-- ===== src/Docs.antt =====
-- The documentation site, docs/.vitepress.
pub mod Number
pub mod Rain
pub mod Theme
pub mod Site
