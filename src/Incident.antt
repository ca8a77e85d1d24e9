-- ===== src/Incident.antt =====
-- The incident component: packages/contracts/src/incident-v1.js (Contract), the simulator's store
-- adapters/simulator/src/incident-store-simulator-adapter.js (Store), and
-- services/incident/src/incident-service.js (Service).
pub mod Names
pub mod Contract
pub mod Environment
pub mod CompanyState
pub mod Port
pub mod Store
pub mod Service
pub mod Operations
pub mod Closing
pub mod Move
pub mod Command
pub mod Lifecycle
pub mod Ambiguity
mod Examples
