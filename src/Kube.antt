-- ===== src/Kube.antt =====
-- Kubernetes as the operator sees it, and package internal/k8s.
pub mod Pods
pub mod Objects
pub mod Env
pub mod Action
pub mod Emits
pub mod Outcome
pub mod Clearing
pub mod Returns
pub mod Calm
pub mod Makes
pub mod Ensures
pub mod Guards
pub mod Keys
pub mod Faults
pub mod Finishes
pub mod Steady
pub mod Leaves
pub mod Secrets
pub mod Namespaces
pub mod Resources
