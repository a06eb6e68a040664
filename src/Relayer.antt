-- ===== src/Relayer.antt =====
-- The relayer, relayer/relayer/src: from the blocks of one chain to votes on the other.
pub mod Blocks
pub mod Azero
pub mod Eth
pub mod Decoding
pub mod Emergency
pub mod Errors
pub mod Polling
pub mod Forwarding
pub mod Recovery
pub mod Supervisor
pub mod Startup
pub mod Instances
pub mod Connections
