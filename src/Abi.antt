-- ===== src/Abi.antt =====
-- tokens/eth/abicoder, with what it calls of common/bytes.go and common/utils.go: packing arguments as
-- Solidity's ABI does, and reading them back. Bytes are natural numbers below 256.
pub mod Bytes
pub mod Pack
pub mod Parse
pub mod RoundTrip
pub mod Call
