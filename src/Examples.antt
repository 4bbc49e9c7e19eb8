-- ===== src/Examples.antt =====
-- A small world in which the program runs, and what the theorems say of it there.
pub mod World
pub mod Cluster
pub mod Wake
pub mod Kubernetes
pub mod Passes
pub mod Stores
pub mod Requests
pub mod Table
pub mod Routing
pub mod CommandLine
pub mod Starting
pub mod Workers
