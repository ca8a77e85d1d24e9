-- ===== src/Incident/Lifecycle.antt =====
-- The operations of services/incident/src/incident-service.js over the simulator's store,
-- as moves of the lifecycle.
mod Steps
mod Operations
pub mod Commands
