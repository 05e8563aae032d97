-- ===== src/Agent.antt =====
-- src/client_agent.rs: the agent that runs in the background for the client.
pub mod Percent
pub mod Control
pub mod Messages
pub mod Session
pub mod Managed
