-- ===== src/Most.antt =====
-- azero/contracts/most/lib.rs: the Most contract, the Aleph Zero end of the bridge.
pub mod Types
pub mod Chain
pub mod Query
pub mod Fee
pub mod Setup
pub mod Bridge
pub mod Admin
pub mod Calls
pub mod View
pub mod Receiving
pub mod Guards
pub mod Committee
pub mod FeeBounds
pub mod Payouts
pub mod Ownership
pub mod Voters
pub mod Setting
pub mod Voting
pub mod Quorum
pub mod Status
pub mod Deployment
pub mod Tests
pub mod Money
pub mod Sending
pub mod Nonces
pub mod Votes
pub mod Rewards
