-- ===== src/Classify.antt =====
-- What an audit is turned into: modules/ai/guardrails.py, modules/opportunities/rules.py, and
-- what modules/opportunities/service.py makes of both.
pub mod Catalogue
pub mod Guardrails
pub mod Merge
pub mod Rules
pub mod Withdraw
mod Tests
