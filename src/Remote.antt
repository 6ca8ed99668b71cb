-- ===== src/Remote.antt =====
-- The subcommand `remote`: subcmd/remote/.
pub mod Config
pub mod Static
pub mod Dhcp
pub mod Commit
pub mod Main
pub mod Run
