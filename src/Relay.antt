-- ===== src/Relay.antt =====
-- The relay's jobs: packages/contracts/src/job-v1.js (Contract, Request) and the simulator's store
-- adapters/simulator/src/relay-store-simulator-adapter.js (Job, Methods, Commit, Calls, Store).
pub mod Contract
pub mod Request
pub mod Job
pub mod Methods
pub mod Commit
pub mod Calls
pub mod Store
pub mod Action
pub mod Gateway
pub mod Intent
pub mod Service
mod Examples
