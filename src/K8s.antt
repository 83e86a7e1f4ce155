-- ===== src/K8s.antt =====
-- pkg/operator/k8sutil: helpers over the clients of the Kubernetes API.
pub mod Client
pub mod Delete
pub mod Status
pub mod ConfigMap
pub mod Job
pub mod Deployment
mod Samples
