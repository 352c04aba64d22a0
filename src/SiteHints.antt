-- ===== src/SiteHints.antt =====
-- internal/sitehints: which pages of known platforms are hubs.
pub mod Match
pub mod Media
pub mod Code
pub mod Shops
pub mod Registry
pub mod Sound
pub mod Laws
pub mod Domains
pub mod Order
