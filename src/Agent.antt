-- ===== src/Agent.antt =====
-- Agents and their states: dev/so_5/agent.cpp and dev/so_5/state.hpp.
pub mod Tests
pub mod State
pub mod Switch
pub mod Core
pub mod Subscribing
