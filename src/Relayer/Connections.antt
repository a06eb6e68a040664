-- ===== src/Relayer/Connections.antt =====
-- relayer/relayer/src/connections: the signers of both chains, with keys of their own or over the
-- connection to the signer.
pub mod Eth
pub mod Azero
pub mod Signing
mod Tests
