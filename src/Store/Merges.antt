-- ===== src/Store/Merges.antt =====
-- internal/store/automerge.go: what the store does to the automatic-merge state of a saved pull
-- request. The time of a call is an argument.
pub mod Observe
pub mod Claim
pub mod Settle
pub mod Authority
pub mod Single
