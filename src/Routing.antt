-- ===== src/Routing.antt =====
-- control/src/routing/matcher.rs: routing rules, their lowering to match sets, and the evaluation.
pub mod MatchSet
pub mod Matcher
pub mod Lowering
pub mod Expression
pub mod Action
pub mod DomainStrings
