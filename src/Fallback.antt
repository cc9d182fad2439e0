-- ===== src/Fallback.antt =====
-- internal/fallback: the public resolvers that answer when no Pi-hole can, and the tracker of their
-- use.
pub mod Tracker
pub mod Resolver
