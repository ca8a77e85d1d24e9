-- ===== src/Scheduler.antt =====
-- The scheduler: packages/contracts/src/scheduler-v1.js (Contract), the simulator's reservation
-- store adapters/simulator/src/scheduler-store-simulator-adapter.js (Store), and
-- services/scheduler/src/scheduler-service.js (Decide, Service).
pub mod Contract
pub mod Store
pub mod Decide
pub mod Service
pub mod Start
mod Examples
