-- ===== src/Ecs.antt =====
-- cmd/internal/ecs/add.go: the wizard that adds the agent to a service of AWS ECS.
pub mod State
pub mod Loading
pub mod Steps
pub mod FromFlags
pub mod Agent
pub mod Run
pub mod Loads
pub mod Early
pub mod Filling
pub mod History
pub mod Safety
pub mod Changes
pub mod Unattended
pub mod Queries
pub mod Findings
pub mod Waiting
pub mod Examples
