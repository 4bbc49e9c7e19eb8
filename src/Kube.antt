-- ===== src/Kube.antt =====
-- internal/k8s/client.go: the Kubernetes client of the orchestrator.
pub mod Objects
pub mod Laws
pub mod Names
pub mod Pods
pub mod Volumes
pub mod WarmPool
