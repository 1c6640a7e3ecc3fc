-- ===== src/Payments.antt =====
-- zallet-core/src/components/json_rpc/payments.rs and the methods z_sendmany and fund_source: what a
-- request asks for, what the privacy policy lets it reveal, what is proposed, and what is broadcast.
pub mod Policy
pub mod Proposal
pub mod Address
pub mod Broadcast
pub mod Limits
pub mod Outputs
pub mod Request
pub mod Recipients
pub mod Propose
pub mod Source
pub mod Accounts
pub mod SendMany
pub mod Shield
pub mod SendTests
pub mod CallTests
mod ShieldTests
mod SourceTests
mod Tests
