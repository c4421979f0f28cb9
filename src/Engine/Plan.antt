-- ===== src/Engine/Plan.antt =====
-- internal/engine/plan_rules.go: the rules that a plan meets before it is committed and dispatched.
pub mod Ids
mod IdsExact
pub mod Dependencies
pub mod Rules
mod RulesHold
pub mod Proposals
mod Repeats
mod Grounds
mod Committed
mod Examples
mod Ready
mod Order
mod Search
mod Accepted
