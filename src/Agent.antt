-- ===== src/Agent.antt =====
-- Parts of the agent's own control: bin/agent_forward.rs and utils/retry_helper.rs.
pub mod Offline
pub mod Retry
mod Tests
