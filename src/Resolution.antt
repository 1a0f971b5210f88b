-- ===== src/Resolution.antt =====
-- modules/resolution: which existing businesses a discovered record may be, and the decision.
pub mod Model
pub mod Scoring
pub mod Resolver
pub mod Blocking
mod Tests
