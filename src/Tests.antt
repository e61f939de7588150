-- ===== src/Tests.antt =====
-- The theorems at concrete inputs, and runs of the code.
mod Fixtures
mod Store
mod Value
mod Jobs
mod Admin
mod Follow
mod Nonces
mod Packed
mod Runs
mod Converted
mod Erc20
mod Accepting
mod Building
mod Raw
mod Paying
