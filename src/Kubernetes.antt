-- ===== src/Kubernetes.antt =====
-- app/kubernetes and the parts that every Kubernetes-backed service of the server shares.
pub mod Names
pub mod Api
pub mod Dates
pub mod Labels
pub mod Outside
pub mod Memory
pub mod Runs
