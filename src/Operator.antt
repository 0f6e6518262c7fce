-- ===== src/Operator.antt =====
-- The Kubernetes operator: operator/api and operator/internal/controller.
pub mod Types
pub mod Pod
pub mod Objects
pub mod Reconcile
pub mod Containers
pub mod Settle
pub mod Growth
pub mod Env
pub mod Pass
mod Tests
