-- ===== src/EthContract.antt =====
-- eth/contracts/Most.sol: the Most contract on Ethereum, the other end of the bridge.
pub mod Encoding
pub mod Types
pub mod Bridge
pub mod Admin
pub mod Calls
pub mod Returning
pub mod Received
pub mod Votes
pub mod Voting
pub mod Deployment
pub mod Open
pub mod Execution
pub mod Quorum
pub mod Numbers
pub mod Guards
pub mod Tests
