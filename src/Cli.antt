-- ===== src/Cli.antt =====
-- The command line `ztm`: cmd/ztm and internal/cli.
pub mod Types
pub mod Kubectl
pub mod Client
pub mod Mock
pub mod Output
pub mod Commands
pub mod Main
