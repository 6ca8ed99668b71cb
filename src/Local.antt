-- ===== src/Local.antt =====
-- subcmd/local: the command that the operator runs.
pub mod Main
pub mod Run
